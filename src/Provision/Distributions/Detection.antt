-- ===== src/Provision/Distributions/Detection.antt =====
-- Which provisioner is detected, in whatever order the map of the registered ones is read.
use p2box.Base.{
  true, false, Text, codes, text_eq, text_eq→eq, List, [], ◌∷◌, Option, none, some, ◌||◌, ◌≡◌, refl,
  sym, subst, ◌∙◌, ◌⊎◌, inl, inr, Bool-cases, Option-cases, if◌then◌else◌, arith,
}
use p2box.Go.{Result, ok, err}
use p2box.Drivers.{Driver}
use p2box.Provision.{Provisioner, detection_failed, first_compatible}
use p2box.Provision.Release.{OsRelease}
use p2box.Provision.Distributions.{
  Distribution, red_hat, centos, fedora, boot2podman, accepts, Workplace, new_provisioner,
  registered_provisioners,
}

abbrev pub Among : Distribution → List Distribution → Type 0
Among k [] = ⊥
Among k (j ∷ ks) = (k ≡ j) ⊎ Among k ks

-- The distribution of an ID.
abbrev pub distribution_of : Text → Option Distribution
distribution_of id =
    if text_eq id (codes "rhel")
    then some red_hat
    else if text_eq id (codes "centos")
    then some centos
    else if text_eq id (codes "fedora")
    then some fedora
    else if text_eq id (codes "boot2podman")
    then some boot2podman
    else if text_eq id (codes "tinycore")
    then some boot2podman
    else none

abbrev pub provisioner_for :
    {W : Type 0} → Workplace W → Driver W → Option Distribution → Result (Provisioner W)
provisioner_for place d none = err detection_failed
provisioner_for place d (some k) = ok (new_provisioner place k d)

known_id :
    (id t : Text) {o : Option Distribution}
    → text_eq id t ≡ true
    → distribution_of t ≡ o
    → distribution_of id ≡ o
known_id id t {o} h k = subst (λ s. distribution_of s ≡ o) (sym (text_eq→eq id t h)) k

accepts-distribution_of :
    (k : Distribution) (id : Text) → accepts k id ≡ true → distribution_of id ≡ some k
accepts-distribution_of red_hat id h = known_id id (codes "rhel") h refl
accepts-distribution_of centos id h = known_id id (codes "centos") h refl
accepts-distribution_of fedora id h = known_id id (codes "fedora") h refl
accepts-distribution_of boot2podman id h = elim (Bool-cases (text_eq id (codes "boot2podman"))) [
  | inl e ↦ known_id id (codes "boot2podman") e refl
  | inr e ↦
      known_id id (codes "tinycore") (subst (λ b. (b || text_eq id (codes "tinycore")) ≡ true) e h)
        refl
]

distribution_of-accepts :
    (k : Distribution) (id : Text) → distribution_of id ≡ some k → accepts k id ≡ true
distribution_of-accepts red_hat id h = ground arith
distribution_of-accepts centos id h = ground arith
distribution_of-accepts fedora id h = ground arith
distribution_of-accepts boot2podman id h = ground arith

false_is_true : false ≡ true → ⊥
false_is_true h = cc

module _ {W : Type 0} (place : Workplace W) where
  -- What is put into the field is read back.
  abbrev pub Remembers : Type 0
  Remembers = (info : OsRelease) (w : W) → place.cell.get (place.cell.put info w) ≡ info

  -- A new provisioner that is told the ID answers by it.
  compatible_told :
      (k : Distribution) (d : Driver W) (info : OsRelease) (w : W)
      → Remembers
      → (let p = new_provisioner place k d in
          p.compatible_with_host (p.set_os_release_info info w)
          ≡ (accepts k info.id, place.cell.put info w))
  unfolding new_provisioner
  compatible_told red_hat d info w r = rw (r info w) refl
  compatible_told centos d info w r = rw (r info w) refl
  compatible_told fedora d info w r = rw (r info w) refl
  compatible_told boot2podman d info w r = rw (r info w) refl

  detects :
      (d : Driver W) (info : OsRelease)
      → Remembers
      → (order : List Distribution) (w : W)
      → ((k : Distribution) → distribution_of info.id ≡ some k → Among k order)
      → (first_compatible (registered_provisioners place order) d info w).0
        ≡ provisioner_for place d (distribution_of info.id)
  unfolding first_compatible
  detects d info r [] w all = elim (Option-cases (distribution_of info.id)) [
    | inl e ↦ rw e refl
    | inr (k, e) ↦ absurd (all k e)
  ]
  detects d info r (j ∷ order) w all = elim (Bool-cases (accepts j info.id)) [
    | inl e ↦ rw (compatible_told j d info w r, e, accepts-distribution_of j info.id e) refl
    | inr e ↦
        rw (compatible_told j d info w r, e)
          (detects d info r order (place.cell.put info w) λ k known. elim (all k known) [
            | inl same ↦ absurd (
                false_is_true (
                  sym e
                  ∙ subst (λ i. accepts i info.id ≡ true) same
                      (distribution_of-accepts k info.id known)))
            | inr among ↦ among
          ])
  ]

  -- In whatever order the map of the provisioners is read, a machine gets the provisioner that is
  -- registered for the ID of its /etc/os-release, and an ID that none is registered for is an
  -- error.
  pub first_compatible-provisioner_for :
      (d : Driver W) (info : OsRelease) (order : List Distribution) (w : W)
      → Remembers
      → ((k : Distribution) → Among k order)
      → (first_compatible (registered_provisioners place order) d info w).0
        ≡ provisioner_for place d (distribution_of info.id)
  first_compatible-provisioner_for d info order w r all =
      detects d info r order w (λ k known. all k)
