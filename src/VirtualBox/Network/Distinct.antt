-- ===== src/VirtualBox/Network/Distinct.antt =====
-- The adapters that are listed are told apart by their names and by their addresses.
use p2box.VirtualBox.Network.{
  close_with, Field, a_name, a_guid, a_dhcp, an_ip, a_mask, a_mac, a_medium, a_status, a_network,
  other_field, field_of, read_field, NetLibrary, HostOnlyNetwork, Networks, Scan, empty_scan,
  find_network, has_ip, add_ip, close_adapter, with_mac, read_adapter, adapters_of,
}
use p2box.Base.{
  ◌≡◌, refl, false, Text, List, [], ◌∷◌, Option, none, some, inl, inr, subst, sym, ◌∙◌, ap,
  Bool-cases,
}
use p2box.Go.{Result, ok, err}
use p2box.Go.Laws.{Result-cases, ok-injective}
use p2box.VirtualBox.Dhcp.{Ip}
use p2box.VirtualBox.Output.{colon_line, parse_key_values, parse_key_values-keeps}

-- No name stands for two adapters, and each stands for the adapter that has it.
abbrev pub IsDistinct : Networks → Type 0
IsDistinct [] = Unit
IsDistinct ((name, n) ∷ nets) =
    (find_network name nets ≡ none) × (n.network_name ≡ name) × IsDistinct nets

abbrev pub onto_ips : Option Ip → List Ip → List Ip
onto_ips none ips = ips
onto_ips (some ip) ips = ip ∷ ips

abbrev pub ips_of : Networks → List Ip
ips_of [] = []
ips_of ((name, n) ∷ nets) = onto_ips n.ip (ips_of nets)

abbrev pub NoneTwice : List Ip → Type 0
NoneTwice [] = Unit
NoneTwice (ip ∷ ips) = (has_ip ip ips ≡ false) × NoneTwice ips

-- What holds between two lines.
abbrev Keeping : Scan → Type 0
Keeping s = IsDistinct s.by_name × (s.by_ip ≡ ips_of s.by_name) × NoneTwice s.by_ip

abbrev Keeps : Result Scan → Type 0
Keeps r = (s : Scan) → r ≡ ok s → Keeping s

ok-Keeps : (s : Scan) → Keeping s → Keeps (ok s)
ok-Keeps s k s' h = subst Keeping (ok-injective h) k

add_ip-NoneTwice :
    (ip : Option Ip) (ips ips' : List Ip)
    → NoneTwice ips
    → add_ip ip ips ≡ ok ips'
    → (ips' ≡ onto_ips ip ips) × NoneTwice ips'
add_ip-NoneTwice none ips ips' k h = (sym (ok-injective h), subst NoneTwice (ok-injective h) k)
add_ip-NoneTwice (some ip) ips ips' k h = elim (Bool-cases (has_ip ip ips)) [
  | inl e ↦ cc (rw e at h)
  | inr e ↦ let q : ip ∷ ips ≡ ips' = ok-injective (rw e at h) in (sym q, subst NoneTwice q (e, k))
]

close_with-Keeps :
    (n : HostOnlyNetwork) (s : Scan) (old : Option HostOnlyNetwork) (r : Result (List Ip))
    → Keeping s
    → find_network n.network_name s.by_name ≡ old
    → add_ip n.ip s.by_ip ≡ r
    → Keeps (close_with n s old r)
close_with-Keeps n s (some old) r k e q s' h = cc h
close_with-Keeps n s none (err x) k e q s' h = cc h
close_with-Keeps n s none (ok ips) (d, i, t) e q s' h =
    let (added, twice) = add_ip-NoneTwice n.ip s.by_ip ips t q in
    subst Keeping (ok-injective h) ((e, refl, d), added ∙ ap (onto_ips n.ip) i, twice)

close_adapter-Keeps : (n : HostOnlyNetwork) (s : Scan) → Keeping s → Keeps (close_adapter n s)
close_adapter-Keeps n s k = close_with-Keeps n s _ _ k refl refl

module _ (lib : NetLibrary) where
  with_mac-Keeps : (s : Scan) (mac : Option Text) → Keeping s → Keeps (with_mac lib s mac)
  with_mac-Keeps s none k s' h = cc h
  with_mac-Keeps s (some mac) k s' h = ok-Keeps _ k s' h

  read_field-Keeps :
      (f : Field) (val : Text) (s : Scan) → Keeping s → Keeps (read_field lib f val s)
  unfolding read_field
  read_field-Keeps a_name val s k = ok-Keeps _ k
  read_field-Keeps a_guid val s k = ok-Keeps _ k
  read_field-Keeps a_dhcp val s k = ok-Keeps _ k
  read_field-Keeps an_ip val s k = ok-Keeps _ k
  read_field-Keeps a_mask val s k = ok-Keeps _ k
  read_field-Keeps a_medium val s k = ok-Keeps _ k
  read_field-Keeps a_status val s k = ok-Keeps _ k
  read_field-Keeps other_field val s k = ok-Keeps _ k
  read_field-Keeps a_mac val s k = with_mac-Keeps s (lib.parse_mac val) k
  read_field-Keeps a_network val s k = close_adapter-Keeps _ s k

  -- The adapters that are read from any output of VirtualBox have different names, each under its
  -- own, and those with an address have different addresses.
  pub adapters_of-IsDistinct :
      (out : Text) (nets : Networks)
      → adapters_of lib out ≡ ok nets
      → IsDistinct nets × NoneTwice (ips_of nets)
  unfolding adapters_of read_adapter
  adapters_of-IsDistinct out nets h =
      elim (Result-cases (parse_key_values colon_line (read_adapter lib) out empty_scan)) [
        | inr (e, q) ↦ cc (rw (q, adapters_of) at h)
        | inl (s, q) ↦
            let (d, i, t) =
              parse_key_values-keeps colon_line (read_adapter lib) Keeping
                (λ key val x x' kept. read_field-Keeps (field_of key) val x kept x') out empty_scan
                s (tt, refl, tt) q in
            let same : s.by_name ≡ nets = ok-injective (rw (q, adapters_of) at h) in
            subst (λ ns. IsDistinct ns × NoneTwice (ips_of ns)) same (d, subst NoneTwice i t)
      ]
