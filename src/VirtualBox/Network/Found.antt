-- ===== src/VirtualBox/Network/Found.antt =====
-- The adapter that a machine gets.
use p2box.Base.{
  ◌≡◌, ◌⊎◌, inl, inr, refl, ap, subst, sym, Bool, true, false, Bool-cases, ==_iff, ◌&&◌, ◌||◌,
  arith, [], ◌∷◌, Option, none, some, Text, codes,
}
use p2box.VirtualBox.Network.Adapters.{
  save_ipv4, ask_dhcp, wait_for_new_host_only_network, create_hostonly_adapter, fields_match,
  matches, get_host_only_adapter, save_network, configured, create_network, or_create,
  get_or_create_host_only_network,
}
use p2box.Go.{Result, ok, err, pure}
use p2box.Go.Laws.{>>=-eq-ok, ok-injective}
use p2box.Wait.{Sleep}
use p2box.VirtualBox.Vbm.{VboxManager}
use p2box.VirtualBox.Dhcp.{Ip}
use p2box.VirtualBox.Network.{NetLibrary, HostOnlyNetwork, Networks, ip_eq, buggy_netmask}

some-injective : {m n : HostOnlyNetwork} → some m ≡ some n → m ≡ n
some-injective h = cc h

ip_eq→eq : (p q : Ip) → ip_eq p q ≡ true → p ≡ q
ip_eq→eq p q h =
    let ea : p.a ≡ q.a = ground (arith, ==_iff p.a q.a) in
    let eb : p.b ≡ q.b = ground (arith, ==_iff p.b q.b) in
    let ec : p.c ≡ q.c = ground (arith, ==_iff p.c q.c) in
    let ed : p.d ≡ q.d = ground (arith, ==_iff p.d q.d) in cc (ea, eb, ec, ed)

-- The adapter has the address, and the mask or the one that VirtualBox shows at first.
abbrev pub IsFor : Ip → Ip → HostOnlyNetwork → Type 0
IsFor host_ip netmask n =
    (n.ip ≡ some host_ip) × ((n.mask ≡ some netmask) ⊎ (n.mask ≡ some buggy_netmask))

pub and-true : (a b : Bool) → (a && b) ≡ true → (a ≡ true) × (b ≡ true)
and-true a b h = ground arith

fields_match-true :
    (host_ip netmask : Ip) (ip mask : Option Ip)
    → fields_match host_ip netmask ip mask ≡ true
    → (ip ≡ some host_ip) × ((mask ≡ some netmask) ⊎ (mask ≡ some buggy_netmask))
fields_match-true host_ip netmask none mask h = cc h
fields_match-true host_ip netmask (some ip) none h = cc h
fields_match-true host_ip netmask (some ip) (some mask) h =
    let (e, m) = and-true (ip_eq host_ip ip) (ip_eq netmask mask || ip_eq mask buggy_netmask) h in
    (ap some (sym (ip_eq→eq host_ip ip e)), which (Bool-cases (ip_eq netmask mask)) m)
  where
    which :
        (ip_eq netmask mask ≡ true) ⊎ (ip_eq netmask mask ≡ false)
        → (ip_eq netmask mask || ip_eq mask buggy_netmask) ≡ true
        → (some mask ≡ some netmask) ⊎ (some mask ≡ some buggy_netmask)
    which (inl q) m = inl (ap some (sym (ip_eq→eq netmask mask q)))
    which (inr q) m = inr (ap some (ip_eq→eq mask buggy_netmask (rw q at m)))

-- The adapter is one of those that are there.
abbrev pub IsListed : HostOnlyNetwork → Networks → Type 0
IsListed n [] = ⊥
IsListed n ((name, m) ∷ nets) = (m ≡ n) ⊎ IsListed n nets

get_host_only_adapter-IsFor :
    (nets : Networks) (host_ip netmask : Ip) (n : HostOnlyNetwork)
    → get_host_only_adapter nets host_ip netmask ≡ some n
    → IsListed n nets × IsFor host_ip netmask n
unfolding get_host_only_adapter
get_host_only_adapter-IsFor [] host_ip netmask n h = cc h
get_host_only_adapter-IsFor ((name, m) ∷ nets) host_ip netmask n h =
    elim (Bool-cases (matches host_ip netmask m)) [
      | inl e ↦
          let same : m ≡ n = some-injective (rw e at h) in
          (
            inl same,
            subst (IsFor host_ip netmask) same (fields_match-true host_ip netmask m.ip m.mask e),
          )
      | inr e ↦
          let (there, good) = get_host_only_adapter-IsFor nets host_ip netmask n (rw e at h) in
          (inr there, good)
    ]

module _ (lib : NetLibrary) {W : Type 0} (vbox : VboxManager W) (sleep : Sleep W) where
  -- VirtualBox accepted the address and the mask for the adapter.
  abbrev pub IsConfigured : Ip → Ip → Text → W → Type 0
  IsConfigured host_ip netmask name w =
      (vbox.run
        (codes "hostonlyif"
          ∷ codes "ipconfig"
          ∷ name
          ∷ codes "--ip"
          ∷ lib.ip_text host_ip
          ∷ codes "--netmask"
          ∷ lib.ip_text netmask
          ∷ [])
        w).0
      ≡ ok tt

  -- The adapter was there, and the world is as it was; or it is one that appeared after VirtualBox
  -- was asked for an adapter, to which VirtualBox was then told the address and the mask.
  abbrev pub IsGot : Ip → Ip → Networks → W → Result HostOnlyNetwork × W → HostOnlyNetwork → Type 0
  IsGot host_ip netmask nets w answer n =
      (IsListed n nets × IsFor host_ip netmask n × (answer.1 ≡ w))
      ⊎ (let waited =
            wait_for_new_host_only_network lib vbox sleep nets
              (create_hostonly_adapter lib vbox w) in
          (m : HostOnlyNetwork) × (waited.0 ≡ ok m)
          × (n ≡ record m { ip = some host_ip; mask = some netmask })
          × IsConfigured host_ip netmask m.name waited.1)

  configured-IsConfigured :
      (host_ip netmask : Ip) (r : Result HostOnlyNetwork) (w : W) (n : HostOnlyNetwork)
      → (configured lib vbox sleep host_ip netmask r w).0 ≡ ok n
      → (m : HostOnlyNetwork) × (r ≡ ok m)
        × (n ≡ record m { ip = some host_ip; mask = some netmask })
        × IsConfigured host_ip netmask m.name w
  unfolding save_network save_ipv4
  configured-IsConfigured host_ip netmask (err e) w n h = cc h
  configured-IsConfigured host_ip netmask (ok found) w n h =
      let adapter : HostOnlyNetwork = record found { ip = some host_ip; mask = some netmask } in
      let (u, saved, k) = >>=-eq-ok (save_network lib vbox adapter) (λ _. pure adapter) w h in
      let (u', told, k') =
        >>=-eq-ok (save_ipv4 lib vbox adapter) (λ _. ask_dhcp lib vbox adapter) w saved in
      (found, refl, sym (ok-injective k), told)

  or_create-IsGot :
      (host_ip netmask : Ip) (nets : Networks) (found : Option HostOnlyNetwork) (w : W)
      (n : HostOnlyNetwork)
      → get_host_only_adapter nets host_ip netmask ≡ found
      → (or_create lib vbox sleep host_ip netmask nets found w).0 ≡ ok n
      → IsGot host_ip netmask nets w (or_create lib vbox sleep host_ip netmask nets found w) n
  unfolding create_network
  or_create-IsGot host_ip netmask nets (some m) w n e h =
      let same : m ≡ n = ok-injective h in
      let (there, good) = get_host_only_adapter-IsFor nets host_ip netmask m e in
      inl (subst (λ x. IsListed x nets) same there, subst (IsFor host_ip netmask) same good, refl)
  or_create-IsGot host_ip netmask nets none w n e h =
      inr (configured-IsConfigured host_ip netmask _ _ n h)

  -- If a machine gets an adapter, it is one that was there with the host's address and the mask of
  -- the network, or the mask "0f000000" in its place, and nothing was asked of VirtualBox. Or it is
  -- the adapter that appeared after VirtualBox was asked to create one, with the host's address and
  -- the mask, and VirtualBox accepted these for it.
  pub get_or_create_host_only_network-IsFor :
      (host_ip netmask : Ip) (nets : Networks) (w : W) (n : HostOnlyNetwork)
      → (get_or_create_host_only_network lib vbox sleep host_ip netmask nets w).0 ≡ ok n
      → IsGot host_ip netmask nets w
          (get_or_create_host_only_network lib vbox sleep host_ip netmask nets w)
          n
  unfolding get_or_create_host_only_network
  get_or_create_host_only_network-IsFor host_ip netmask nets w n h =
      or_create-IsGot host_ip netmask nets _ w n refl h
