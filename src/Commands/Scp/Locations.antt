-- ===== src/Commands/Scp/Locations.antt =====
-- How the arguments of scp name a place.
use p2box.Base.{
  ◌≡◌, refl, Text, codes, text_eq, false, [], ◌∷◌, ◌++◌, ℤ, cut, cut-append, Lacks, Lacks-append,
  none, some,
}
use p2box.Go.{Go, ok}
use p2box.Drivers.{Driver}
use p2box.Commands.Scp.{get_info_for_scp_arg, info_at, on_this_computer}

cut-Lacks : (s : Text) (sep : p2box.Base.ℕ) → Lacks s sep → cut s sep ≡ none
cut-Lacks [] sep h = refl
cut-Lacks (c ∷ s) sep (h, hs) = rw (h, cut-Lacks s sep hs)

module _ {W : Type 0} (load : Text → Go W (Driver W)) (decimal : ℤ → Text)
    (quote : Text → Text) where
  -- An argument is read as it is written: a user, "@", a host, ":" and a path name that user, host
  -- and path; without a user, none is named; and without a colon, it is a path of this computer.
  -- The path on a machine may have any bytes.
  pub get_info_for_scp_arg-append :
      (user host path : Text)
      → Lacks user b':'
      → Lacks user b'@'
      → Lacks host b':'
      → Lacks host b'@'
      → Lacks path b':'
      → (w : W) (rest : Text)
      → (get_info_for_scp_arg load decimal quote ((user ++ (b'@' ∷ host)) ++ (b':' ∷ rest)) w
          ≡ info_at load decimal quote user host rest w)
        × (get_info_for_scp_arg load decimal quote (host ++ (b':' ∷ rest)) w
            ≡ info_at load decimal quote [] host rest w)
        × (get_info_for_scp_arg load decimal quote path w
            ≡ (ok (on_this_computer load decimal quote path), w))
  unfolding get_info_for_scp_arg
  get_info_for_scp_arg-append user host path uc ua hc ha pc w rest = (
    rw
        (
          cut-append (user ++ (b'@' ∷ host)) rest b':'
              (Lacks-append user (b'@' ∷ host) b':' uc (refl, hc)),
          cut-append user host b'@' ua,
        )
        refl,
    rw (cut-append host rest b':' hc, cut-Lacks host b'@' ha) refl,
    rw (cut-Lacks path b':' pc) refl,
  )
