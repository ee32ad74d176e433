-- ===== src/Cert.antt =====
-- libmachine/cert/bootstrap.go: when certificates are made.
use p2box.Base.{ℕ, Bool, true, false, String, List, [], ◌∷◌, ◌<>◌}
use p2box.Go.{message, wrap, not_exist, Result, ok, err, Go, pure, fail, ◌>>=◌, ◌>>◌, wrap_with}
use p2box.Provision.{AuthOptions}

-- cert.Options
pub record CertOptions : Type 0 where
  pub hosts : List String
  pub cert_file : String
  pub key_file : String
  pub ca_file : String
  pub ca_key_file : String
  pub org : String
  pub bits : ℕ

-- The files, and the certificates of crypto/x509: `is_current` is CheckCertificateDate.
pub record Certificates (W : Type 0) : Type 0 where
  pub stat : String → Go W Unit
  pub mkdir : String → Go W Unit
  pub mkdir_all : String → Go W Unit
  pub remove : String → Go W Unit
  pub generate_ca_certificate : String → String → String → ℕ → Go W Unit
  pub generate_cert : CertOptions → Go W Unit
  pub is_current : String → Go W Bool
  pub username : String

abbrev pub bits : ℕ
bits = 2048

module _ {W : Type 0} (c : Certificates W) where
  -- An error of `Stat` means that the key is not there.
  abbrev unless_there : String → Result (Unit {0}) → Go W Unit → Go W Unit
  unless_there text (ok u) later = fail (message text)
  unless_there text (err e) later = later

  abbrev pub must_be_missing : String → String → Go W Unit → Go W Unit
  must_be_missing path text later w = let (r, w') = c.stat path w in unless_there text r later w'

  -- Where a directory is missing, it is made.
  abbrev pub made_if_missing : Result (Unit {0}) → Go W Unit → Go W Unit
  made_if_missing (ok u) make = pure tt
  made_if_missing (err not_exist) make = make
  made_if_missing (err e) make = fail e

  abbrev pub ensure_dir : String → Go W Unit → Go W Unit
  ensure_dir path make w = let (r, w') = c.stat path w in made_if_missing r make w'

  unfoldable pub create_ca_cert : AuthOptions → String → Go W Unit
  create_ca_cert auth ca_org =
      must_be_missing auth.ca_private_key_path "certificate authority key already exists" (
        wrap_with (wrap "generating CA certificate failed")
          (c.generate_ca_certificate auth.ca_cert_path auth.ca_private_key_path ca_org bits))

  unfoldable pub create_cert : AuthOptions → String → Go W Unit
  create_cert auth org = do
    ensure_dir auth.cert_dir
        (wrap_with (wrap "failure creating machine client cert dir") (c.mkdir auth.cert_dir))
    must_be_missing auth.client_key_path "client key already exists" (
        wrap_with (wrap "failure generating client certificate") (
          c.generate_cert (record {
            hosts = "" ∷ [];
            cert_file = auth.client_cert_path;
            key_file = auth.client_key_path;
            ca_file = auth.ca_cert_path;
            ca_key_file = auth.ca_private_key_path;
            org = org;
            bits = bits;
          })))

  -- The error of the removal of an old key is dropped.
  abbrev removed : String → Go W Unit
  removed path w = (ok tt, (c.remove path w).1)

  -- A certificate that is missing is made; one that is outdated is made again.
  abbrev pub renew : String → Go W Unit → Bool → Go W Unit
  renew key_path create true = pure tt
  renew key_path create false = removed key_path >>= λ u. create

  abbrev pub made_or_renewed : String → String → Go W Unit → Result (Unit {0}) → Go W Unit
  made_or_renewed cert_path key_path create (err not_exist) = create
  made_or_renewed cert_path key_path create r =
      c.is_current cert_path >>= λ current. renew key_path create current

  abbrev pub up_to_date : String → String → Go W Unit → Go W Unit
  up_to_date cert_path key_path create w =
      let (r, w') = c.stat cert_path w in made_or_renewed cert_path key_path create r w'

  unfoldable pub bootstrap_certificates : AuthOptions → Go W Unit
  bootstrap_certificates auth = do
    ensure_dir auth.cert_dir
        (wrap_with (wrap "creating machine certificate dir failed") (c.mkdir_all auth.cert_dir))
    up_to_date auth.ca_cert_path auth.ca_private_key_path (create_ca_cert auth c.username)
    up_to_date auth.client_cert_path auth.client_key_path
        (create_cert auth (c.username <> ".<bootstrap>"))
