-- ===== src/VirtualBox/Ports.antt =====
-- drivers/virtualbox/virtualbox.go: forwarding a port of the host.
use p2box.Base.{ℕ, zero, suc, ℤ, Bool, false, Text, codes, [], ◌∷◌, ◌++◌, ◌==◌, if◌then◌else◌, not}
use p2box.Go.{message, ok, Go, pure, fail, ◌>>=◌, ◌>>◌}
use p2box.VirtualBox.Vbm.{VboxManager}

abbrev pub is_zero : ℤ → Bool
is_zero (ℤ.pos n) = n == 0
is_zero (ℤ.negsuc n) = false

-- `listen` opens a port of 127.0.0.1 and gives the number in the address that it got; `decimal` is
-- the verb "%d".
module _ {W : Type 0} (listen : ℤ → Go W ℤ) (sleep : ℕ → W → W) where
  -- The attempts that are left. The pause of one nanosecond is one of no milliseconds.
  unfoldable pub port_attempts : ℕ → ℤ → Go W ℤ
  port_attempts zero port = fail (message "unable to allocate tcp port")
  port_attempts (suc attempts) port = do
    p ← listen port
    if not (is_zero p) then pure p else λ w. port_attempts attempts (ℤ.pos 0) (sleep 0 w)

  unfoldable pub get_available_tcp_port : ℤ → Go W ℤ
  get_available_tcp_port port = port_attempts 11 port

  module _ (decimal : ℤ → Text) (vbox : VboxManager W) (machine_name : Text) where
    abbrev pub natpf : ℤ → Text
    natpf interface_num = codes "--natpf" ++ decimal interface_num

    abbrev pub rule : Text → Text → ℤ → ℤ → Text
    rule map_name protocol actual_host_port guest_port =
        map_name
        ++ (b','
            ∷ (protocol
                ++ (codes ",127.0.0.1,"
                    ++ (decimal actual_host_port ++ (codes ",," ++ decimal guest_port)))))

    -- The error of the removal of the old rule is dropped.
    abbrev pub delete_rule : ℤ → Text → Go W Unit
    delete_rule interface_num map_name w = (
      ok tt,
      (vbox.run
          (codes "modifyvm" ∷ machine_name ∷ natpf interface_num ∷ codes "delete" ∷ map_name ∷ [])
          w).1,
    )

    -- An error comes with the port -1, which is left to the caller.
    unfoldable pub set_port_forwarding : ℤ → Text → Text → ℤ → ℤ → Go W ℤ
    set_port_forwarding interface_num map_name protocol guest_port desired_host_port = do
      actual_host_port ← get_available_tcp_port desired_host_port
      delete_rule interface_num map_name
      vbox.run (
          codes "modifyvm"
          ∷ machine_name
          ∷ natpf interface_num
          ∷ rule map_name protocol actual_host_port guest_port
          ∷ [])
      pure actual_host_port
