-- ===== src/Tests/Samples.antt =====
-- A codec, a choice of temporary names and hosts that meet what the theorems about the store
-- ask of them.
use p2box.Base.{
  ap, ◌⊎◌, ◌≤◌, ℤ, ◌≡◌, refl, inl, inr, Bool-cases, String, str_eq, eq_iff, length, length-append,
  [], ◌∷◌, ◌++◌, none, some, arith, if◌then◌else◌,
}
use native.Mathlib.Decide.{ℕ_discrete}
use p2box.Go.{ok, err, message, Result}
use p2box.Provision.{AuthOptions}
use p2box.Host.{Options}
use p2box.Disk.{TempName}
use p2box.Disk.Entries.{FilePath, Files, lookup}
use p2box.Disk.Dirs.{longer_apart}
use p2box.Persist.Stored.{StoredHost, Metadata, Codec}
use p2box.Persist.Loading.{IsLawful, metadata_of}
use p2box.Persist.SaveToFile.{IsFresh}

string_discrete : Discrete String
string_discrete a b = elim (Bool-cases (str_eq a b)) [
  | inl e ↦ yes ((eq_iff a b).0 e)
  | inr e ↦ no (λ p. cc (e, (eq_iff a b).1 p))
]

host_discrete : Discrete StoredHost
host_discrete = hlevel (string_discrete, ℕ_discrete)

-- A path longer than any of the files.
unfoldable pub deeper : Files → FilePath
deeper [] = "t" ∷ []
deeper ((k, v) ∷ m) = "t" ∷ (k ++ deeper m)

abbrev pub temp_name : TempName
temp_name d pattern files = deeper files

lookup-longer :
    (p : FilePath) (files : Files) → length (deeper files) ≤ length p → lookup p files ≡ none
unfolding deeper lookup
lookup-longer p [] h = refl
lookup-longer p ((k, v) ∷ m) h =
    rw (longer_apart k p (omega (arith, length-append k (deeper m))), lookup)
      (lookup-longer p m (omega (arith, length-append k (deeper m))))

pub temp_name-IsFresh : IsFresh temp_name
temp_name-IsFresh d pattern files = lookup-longer (deeper files) files (omega arith)

abbrev pub auth : AuthOptions
auth = record {
  cert_dir = "/c";
  ca_cert_path = "/c/ca.pem";
  ca_private_key_path = "/c/ca-key.pem";
  ca_cert_remote_path = "";
  server_cert_path = "/m/server.pem";
  server_key_path = "/m/server-key.pem";
  client_key_path = "/c/key.pem";
  server_cert_remote_path = "";
  server_key_remote_path = "";
  client_cert_path = "/c/cert.pem";
  server_cert_sans = [];
  store_path = "/m/box";
}

abbrev pub options : Options
options = record {
  driver = "";
  memory = ℤ.pos 0;
  disk = ℤ.pos 0;
  engine_options = none;
  auth_options = some auth;
}

abbrev pub box : StoredHost
box = record {
  config_version = 3;
  driver = some "{}";
  driver_name = "none";
  host_options = some options;
  name = "box";
  raw_driver = none;
}

abbrev pub store_path : FilePath
store_path = "home" ∷ []

-- Texts for two hosts: the one above, and what is left of one after a migration. A third text
-- reads as the metadata of an older configuration.
abbrev pub old_metadata : Metadata
old_metadata = record { config_version = 1; driver_name = "none"; host_options = options }

abbrev pub hollow : StoredHost
hollow = record {
  config_version = 3;
  driver = none;
  driver_name = "";
  host_options = none;
  name = "box";
  raw_driver = none;
}

abbrev pub text_of : {h : StoredHost} → Dec (h ≡ box) → Dec (h ≡ hollow) → Result String
text_of (yes e) _ = ok "box"
text_of (no n) (yes e) = ok "hollow"
text_of (no n) (no n') = err (message "unknown host")

pub encode : StoredHost → Result String
unfolding host_discrete
encode h = text_of (host_discrete h box) (host_discrete h hollow)

abbrev pub codec : Codec
codec = record {
  encode = encode;
  decode_metadata = λ text.
      if str_eq text "box"
      then some (metadata_of box)
      else if str_eq text "hollow"
      then some (metadata_of hollow)
      else if str_eq text "old"
      then some old_metadata
      else none;
  decode_host = λ text into.
      if str_eq text "box"
      then some (record box { raw_driver = into.raw_driver })
      else if str_eq text "hollow"
      then some (record hollow { raw_driver = into.raw_driver })
      else none;
}

abbrev IsSample : StoredHost → String → Type 0
IsSample h text = ((h ≡ box) × (text ≡ "box")) ⊎ ((h ≡ hollow) × (text ≡ "hollow"))

text_of-cases :
    (h : StoredHost) (text : String) (a : Dec (h ≡ box)) (b : Dec (h ≡ hollow))
    → text_of a b ≡ ok text
    → IsSample h text
text_of-cases h text (yes e) b t = inl (e, cc t)
text_of-cases h text (no n) (yes e) t = inr (e, cc t)
text_of-cases h text (no n) (no n') t = cc t

encode-cases : (h : StoredHost) (text : String) → encode h ≡ ok text → IsSample h text
unfolding encode
encode-cases h text t = text_of-cases h text (host_discrete h box) (host_discrete h hollow) t

pub codec-IsLawful : IsLawful codec
codec-IsLawful = record {
  metadata =
      λ h text t. elim (encode-cases h text t) [ inl (e, q) ↦ rw (e, q) | inr (e, q) ↦ rw (e, q) ];
  host = λ h into text t. elim (encode-cases h text t) [
    | inl (e, q) ↦ rw (e, q)
    | inr (e, q) ↦ rw (e, q)
  ];
}

text_of-box : (a : Dec (box ≡ box)) (b : Dec (box ≡ hollow)) → text_of a b ≡ ok "box"
text_of-box (yes e) b = refl
text_of-box (no n) b = absurd (n refl)

text_of-hollow : (a : Dec (hollow ≡ box)) (b : Dec (hollow ≡ hollow)) → text_of a b ≡ ok "hollow"
text_of-hollow (yes e) b = cc (ap (λ (h : StoredHost). h.driver) e)
text_of-hollow (no n) (yes e) = refl
text_of-hollow (no n) (no n') = absurd (n' refl)

pub encode-box : encode box ≡ ok "box"
unfolding encode
encode-box = text_of-box (host_discrete box box) (host_discrete box hollow)

pub encode-hollow : encode hollow ≡ ok "hollow"
unfolding encode
encode-hollow = text_of-hollow (host_discrete hollow box) (host_discrete hollow hollow)

-- Texts of a configuration that a later version wrote.
abbrev pub later_metadata : Metadata
later_metadata = record { config_version = 4; driver_name = "none"; host_options = options }

abbrev pub later_codec : Codec
later_codec = record codec { decode_metadata = λ text. some later_metadata }
