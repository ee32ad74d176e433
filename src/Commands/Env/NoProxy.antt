-- ===== src/Commands/Env/NoProxy.antt =====
-- The list of hosts without a proxy, and what `env -u` prints.
use p2box.Base.{
  ◌≡◌, refl, Bool-cases, inl, inr, arith, true, Text, contains, has_prefix, [], ◌∷◌, ◌++◌, ap, sym,
  ◌∙◌, subst, Bool, String, str_eq, false, ℤ, codes,
}
use mathlib.Core.List.{append_assoc}
use p2box.Go.{ok}
use p2box.Go.Laws.{ok-injective}
use p2box.Commands.Env.{
  unset_proxy, Process, EnvFlags, get_shell, shell_cfg_unset, setting, with_host, env_text,
}
use p2box.Commands.Env.Shells.{empty_config, generate_usage_hint, ShellConfig, unset_syntax}

has_prefix_self : (s : Text) → has_prefix s s ≡ true
has_prefix_self [] = refl
has_prefix_self (c ∷ s) = ground (arith, has_prefix_self s)

contains_self : (s : Text) → contains s s ≡ true
contains_self [] = refl
contains_self (c ∷ s) = ground (arith, has_prefix_self (c ∷ s))

contains-append : (s t : Text) → contains (s ++ t) t ≡ true
contains-append [] t = contains_self t
contains-append (c ∷ s) t = ground (arith, contains-append s t)

contains-entry : (s t : Text) → contains (s ++ (b',' ∷ t)) t ≡ true
contains-entry [] t = ground (arith, contains_self t)
contains-entry (c ∷ s) t = ground (arith, contains-entry s t)

with_host_there : (value ip : Text) → contains value ip ≡ true → with_host value ip ≡ value
unfolding with_host
with_host_there [] [] h = refl
with_host_there [] (c ∷ ip) h = cc h
with_host_there (c ∷ value) ip h = rw h

contains-with_host : (value ip : Text) → contains (with_host value ip) ip ≡ true
unfolding with_host
contains-with_host [] ip = contains_self ip
contains-with_host (c ∷ value) ip = elim (Bool-cases (contains (c ∷ value) ip)) [
  | inl e ↦ rw e e
  | inr e ↦ rw e (contains-entry (c ∷ value) ip)
]

-- The address is in the list once it was added, and adding it again changes nothing.
pub with_host_again :
    (value ip : Text)
    → (contains (with_host value ip) ip ≡ true)
      × (with_host (with_host value ip) ip ≡ with_host value ip)
with_host_again value ip = (
  contains-with_host value ip,
  with_host_there (with_host value ip) ip (contains-with_host value ip),
)

unset_syntax_bare :
    (shell : String) (c : ShellConfig)
    → str_eq shell "cmd" ≡ false
    → str_eq shell "emacs" ≡ false
    → ((unset_syntax shell c).delimiter ≡ []) × ((unset_syntax shell c).podman_port ≡ c.podman_port)
unfolding unset_syntax
unset_syntax_bare shell c cmd emacs = elim (Bool-cases (str_eq shell "fish")) [
  | inl e ↦ rw e (refl, refl)
  | inr e ↦ elim (Bool-cases (str_eq shell "powershell")) [
    | inl f ↦ rw (e, f) (refl, refl)
    | inr f ↦ elim (Bool-cases (str_eq shell "tcsh")) [
      | inl g ↦ rw (e, f, cmd, emacs, g) (refl, refl)
      | inr g ↦ rw (e, f, cmd, emacs, g) (refl, refl)
    ]
  ]
]

spliced :
    (u h rest : Text) {p line : Text}
    → p ≡ line
    → u ++ (h ++ (p ++ rest)) ≡ (u ++ h) ++ (line ++ rest)
spliced u h rest {line = line} e =
    ap (λ q. u ++ (h ++ (q ++ rest))) e ∙ sym (append_assoc u h (line ++ rest))

-- A line that names the variable PODMAN_PORT0 stands in the text.
abbrev pub HasPort0 : Text → Text → Text → Text → Type 0
HasPort0 prefix zero_text suffix text =
    (before : Text) × (after : Text) × (text
      ≡ before ++ ((prefix ++ (codes "PODMAN_PORT" ++ (zero_text ++ suffix))) ++ after))

port_line :
    (decimal : ℤ → Text) (c : ShellConfig)
    → c.delimiter ≡ []
    → c.podman_port ≡ ℤ.pos 0
    → HasPort0 c.prefix (decimal (ℤ.pos 0)) c.suffix (env_text decimal c)
unfolding env_text
port_line decimal c d z = (
  _,
  _,
  spliced (setting decimal c "PODMAN_USER" c.podman_user)
      (setting decimal c "PODMAN_HOST" c.podman_host) _
      (ap (λ q. c.prefix ++ (codes "PODMAN_PORT" ++ (q ++ (decimal c.podman_port ++ c.suffix)))) d
        ∙ ap (λ n. c.prefix ++ (codes "PODMAN_PORT" ++ (decimal n ++ c.suffix))) z),
)

unset_proxy-port :
    (p : Process) (b : Bool) (c : ShellConfig) → (unset_proxy p b c).podman_port ≡ c.podman_port
unset_proxy-port p false c = refl
unset_proxy-port p true c = refl

-- The text that `env -u` prints for any shell but "cmd" and "emacs" has a line for a variable whose
-- name is PODMAN_PORT and the digits of 0, as one word between the prefix and the suffix of the
-- shell.
pub shell_cfg_unset-HasPort0 :
    (p : Process) (flags : EnvFlags) (decimal : ℤ → Text) (shell : String) (c : ShellConfig)
    → get_shell p flags.shell ≡ ok shell
    → str_eq shell "cmd" ≡ false
    → str_eq shell "emacs" ≡ false
    → shell_cfg_unset p flags [] ≡ ok c
    → HasPort0 c.prefix (decimal (ℤ.pos 0)) c.suffix (env_text decimal c)
unfolding shell_cfg_unset
shell_cfg_unset-HasPort0 p flags decimal shell c s cmd emacs h =
    let c0 : ShellConfig =
      unset_proxy p flags.no_proxy
        (record empty_config { usage_hint = generate_usage_hint shell p.os_args }) in
    let (bare, port) = unset_syntax_bare shell c0 cmd emacs in
    subst (λ k. HasPort0 k.prefix (decimal (ℤ.pos 0)) k.suffix (env_text decimal k))
      (ok-injective (rw s at h))
      (port_line decimal (unset_syntax shell c0) bare (port ∙ unset_proxy-port p flags.no_proxy _))
