-- ===== src/Persist/Represents.antt =====
-- When a disk represents a map of machines, and which of its paths lie apart.
use p2box.Base.{
  ◌+◌, refl, ◌<◌, ◌≡◌, ap, ◌∙◌, false, eq_iff, String, List, [], ◌∷◌, ◌++◌, Option, none, some,
  str_eq, arith, length, length-append,
}
use p2box.Persist.Filestore.{parts, has_slash, join, machines_dir, host_path, config_path}
use p2box.Disk.{file_on_way, TempName}
use mathlib.Core.List.{append_assoc}
use p2box.Disk.Dirs.{is_under-append}
use p2box.Disk.Entries.{path_eq_iff, FilePath, dir, file, Files, is_under, path_eq, lookup}
use p2box.Go.{ok}
use p2box.Provision.{AuthOptions}
use p2box.Persist.Stored.{StoredHost, Codec, current_version}
use p2box.Persist.Loading.{or_zero}
use p2box.Persist.Machines.{Machines, StoreOp, saving, removing}

-- A name that filepath.Join takes as one element of a path.
pub record IsPlain (name : String) : Type 0 where
  pub not_empty : str_eq name "" ≡ false
  pub not_here : str_eq name "." ≡ false
  pub not_up : str_eq name ".." ≡ false
  pub no_slash : has_slash name ≡ false

module _ (codec : Codec) where
  -- A host of the current version with authentication options, and its text.
  pub record IsStorable (h : StoredHost) : Type 0 where
    pub plain : IsPlain h.name
    pub version : h.config_version ≡ current_version
    pub auth : AuthOptions
    pub has_auth : (or_zero h.host_options).auth_options ≡ some auth
    pub text : String
    pub encodes : codec.encode h ≡ ok text

  abbrev pub IsGood : StoreOp → Type 0
  IsGood (saving h) = IsStorable h
  IsGood (removing name) = IsPlain name

  abbrev pub AllGood : List StoreOp → Type 0
  AllGood [] = Unit
  AllGood (op ∷ ops) = IsGood op × AllGood ops

  module _ (temp_name : TempName) (path : FilePath) where
    abbrev host_at : String → FilePath
    host_at = host_path codec temp_name path

    abbrev config_at : String → FilePath
    config_at = config_path codec temp_name path

    -- What stands on the disk for one entry of the map.
    abbrev pub Stands : String → Files → Option StoredHost → Type 0
    Stands n files none = (lookup (host_at n) files ≡ none) × (lookup (config_at n) files ≡ none)
    Stands n files (some h) =
        (s : IsStorable h) × (h.name ≡ n)
        × (lookup (host_at n) files ≡ some dir)
        × (lookup (config_at n) files ≡ some (file (s.text)))

    -- No file stands where the directory of the machines is or will be, or above.
    abbrev pub Represents : Machines → Files → Type 0
    Represents m files =
        (file_on_way [] (machines_dir codec temp_name path) files ≡ false)
        × ((n : String) → IsPlain n → Stands n files (m n))

-- A name without slashes is one part.
parts-plain : (name : String) → has_slash name ≡ false → parts name ≡ name ∷ []
parts-plain String.[] h = refl
parts-plain (String.◌∷◌ c s) h = ground (arith, parts-plain s)

join-plain : (p : FilePath) (name : String) → IsPlain name → join p name ≡ p ++ (name ∷ [])
join-plain p name h = rw (parts-plain name h.no_slash, h.not_empty, h.not_here, h.not_up)

pub flipped : (a b : String) → str_eq a b ≡ false → str_eq b a ≡ false
flipped a b h = ground (arith, eq_iff a b, eq_iff b a)

is_under-siblings :
    (p : FilePath) (a b : String) (q : FilePath)
    → str_eq a b ≡ false
    → is_under (p ++ (a ∷ [])) (p ++ (b ∷ q)) ≡ false
is_under-siblings [] a b q h = rw h
is_under-siblings (x ∷ p) a b q h = ground (arith, is_under-siblings p a b q h)

module _ (codec : Codec) (temp_name : TempName) (path : FilePath) where
  pub host_at-plain :
      (n : String)
      → IsPlain n
      → host_at codec temp_name path n ≡ machines_dir codec temp_name path ++ (n ∷ [])
  host_at-plain n h = join-plain (machines_dir codec temp_name path) n h

  config_at-plain :
      (n : String)
      → IsPlain n
      → config_at codec temp_name path n
        ≡ machines_dir codec temp_name path ++ (n ∷ "config.json" ∷ [])
  config_at-plain n h =
      ap (λ p. p ++ ("config.json" ∷ [])) (host_at-plain n h)
      ∙ append_assoc (machines_dir codec temp_name path) (n ∷ []) ("config.json" ∷ [])

  -- The directory of the machines is shorter than any configuration.
  pub machines-config :
      (a : String)
      → IsPlain a
      → length (machines_dir codec temp_name path) + 1 < length (config_at codec temp_name path a)
  machines-config a pa =
      rw (config_at-plain a pa)
        (omega (arith, length-append (machines_dir codec temp_name path) (a ∷ "config.json" ∷ [])))

  pub host-host :
      (a b : String)
      → IsPlain a
      → IsPlain b
      → str_eq a b ≡ false
      → is_under (host_at codec temp_name path a) (host_at codec temp_name path b) ≡ false
  host-host a b pa pb h =
      rw (host_at-plain a pa, host_at-plain b pb)
        (is_under-siblings (machines_dir codec temp_name path) a b [] h)

  pub host-config :
      (a b : String)
      → IsPlain a
      → IsPlain b
      → str_eq a b ≡ false
      → is_under (host_at codec temp_name path a) (config_at codec temp_name path b) ≡ false
  host-config a b pa pb h =
      rw (host_at-plain a pa, config_at-plain b pb)
        (is_under-siblings (machines_dir codec temp_name path) a b ("config.json" ∷ []) h)

  pub config-longer :
      (a b : String)
      → IsPlain a
      → IsPlain b
      → length (host_at codec temp_name path a) < length (config_at codec temp_name path b)
  config-longer a b pa pb =
      rw (host_at-plain a pa, config_at-plain b pb)
        (omega (
          arith,
          length-append (machines_dir codec temp_name path) (a ∷ []),
          length-append (machines_dir codec temp_name path) (b ∷ "config.json" ∷ []),
        ))

  pub config-config :
      (a b : String)
      → IsPlain a
      → IsPlain b
      → str_eq a b ≡ false
      → path_eq (config_at codec temp_name path a) (config_at codec temp_name path b) ≡ false
  config-config a b pa pb h =
      let ha = host_at codec temp_name path a in
      let ca = config_at codec temp_name path a in
      let cb = config_at codec temp_name path b in
      ground (
        arith,
        path_eq_iff ca cb,
        ap (is_under ha),
        is_under-append ha ("config.json" ∷ []),
        host-config a b pa pb h,
      )
