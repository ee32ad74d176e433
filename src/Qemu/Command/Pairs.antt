-- ===== src/Qemu/Command/Pairs.antt =====
-- What the arguments of QEMU say, whatever the settings.
use p2box.Base.{
  Bool, Bool-cases, String, List, [], ◌∷◌, ◌++◌, ◌<>◌, ◌≡◌, inl, inr, refl, ℤ, ap, if◌then◌else◌,
}
use p2box.Qemu.{Driver, qcow2_path, monitor_path, pidfile_path}
use p2box.Qemu.Command.{
  display_args, size_args, cdrom_args, monitor_args, network_args, hvf_args, kvm_args, config_args,
  disk_args, virtio_disk, start_command,
}

-- The option `x` stands among the arguments, with the value `y` behind it.
abbrev pub HasOption : String → String → List String → Type 0
HasOption x y args =
    (before : List String) × (after : List String) × (args ≡ before ++ (x ∷ y ∷ after))

-- The last argument.
abbrev pub EndsWith : String → List String → Type 0
EndsWith x args = (before : List String) × (args ≡ before ++ (x ∷ []))

append_assoc : (xs ys zs : List String) → xs ++ (ys ++ zs) ≡ (xs ++ ys) ++ zs
append_assoc [] ys zs = refl
append_assoc (x ∷ xs) ys zs = ap (◌∷◌ x) (append_assoc xs ys zs)

HasOption-append :
    {x y : String} (xs : List String) {ys : List String}
    → HasOption x y ys
    → HasOption x y (xs ++ ys)
HasOption-append {x} {y} xs (b, a, e) = (xs ++ b, a, rw e (append_assoc xs b (x ∷ y ∷ a)))

EndsWith-append :
    {x : String} (xs : List String) {ys : List String} → EndsWith x ys → EndsWith x (xs ++ ys)
EndsWith-append {x} xs (b, e) = (xs ++ b, rw e (append_assoc xs b (x ∷ [])))

module _ (join : List String → String) (decimal : ℤ → String) (d : Driver) where
  abbrev pub disk_argument : String
  disk_argument = if d.virtio_drives then virtio_disk join decimal d else qcow2_path join d

  disk_args-EndsWith : EndsWith disk_argument (disk_args join decimal d)
  disk_args-EndsWith = elim (Bool-cases d.virtio_drives) [
    | inl e ↦ rw e ("-drive" ∷ [], refl)
    | inr e ↦ rw e ([], refl)
  ]

  -- Whatever the settings, QEMU writes its number to the file that the queries of the state read,
  -- listens on the socket that the commands are sent to, and has the disk of the machine as its
  -- last argument.
  pub start_command-HasOption :
      (has_kvm : Bool)
      → HasOption "-pidfile" (pidfile_path join d) (start_command join decimal d has_kvm)
        × HasOption "-qmp"
            ("unix:" <> monitor_path join d <> ",server,nowait")
            (start_command join decimal d has_kvm)
        × EndsWith disk_argument (start_command join decimal d has_kvm)
  unfolding start_command
  start_command-HasOption has_kvm =
      let display = display_args join decimal d in
      let size = size_args join decimal d in
      let cdrom = cdrom_args join decimal d in
      let qmp = "unix:" <> monitor_path join d <> ",server,nowait" in
      (
        HasOption-append display
            (HasOption-append size (HasOption-append cdrom ("-qmp" ∷ qmp ∷ [], _, refl))),
        HasOption-append display (HasOption-append size (HasOption-append cdrom ([], _, refl))),
        EndsWith-append display (
            EndsWith-append size (
              EndsWith-append cdrom (
                EndsWith-append (monitor_args join decimal d) (
                  EndsWith-append (network_args join decimal d) (
                    EndsWith-append ("-daemonize" ∷ []) (
                      EndsWith-append (hvf_args join decimal d) (
                        EndsWith-append (kvm_args join decimal d has_kvm)
                          (EndsWith-append (config_args join decimal d) disk_args-EndsWith)))))))),
      )
