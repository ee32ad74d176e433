-- ===== src/VirtualBox/Making.antt =====
-- drivers/virtualbox/virtualbox.go: `Create`, which makes a machine and starts it.
use p2box.Base.{ℕ, Option, some}
use p2box.Go.{Result, ok, err}
use p2box.VirtualBox.Flags.{Settings}
use p2box.VirtualBox.Starting.{Parts, start}
use p2box.VirtualBox.Creating.{Workshop, create_vm}

-- The driver as a creation and as a start see it: one driver, with one VBoxManager.
module _ {W : Type 0} (workshop : Workshop W) (parts : Parts W) (settings : Settings) where
  abbrev pub started : ℕ → Result (Unit {0}) → W → Option (Result (Unit {0}) × W)
  started fuel (err e) w = some (err e, w)
  started fuel (ok u) w = start parts settings fuel w

  -- The fuel is that of `start`.
  unfoldable pub create : ℕ → W → Option (Result (Unit {0}) × W)
  create fuel w = let (r, w') = create_vm workshop settings w in started fuel r w'
