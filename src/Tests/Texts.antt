-- ===== src/Tests/Texts.antt =====
-- The lock of the serial drivers, and texts that the driver for VirtualBox reads.
use p2box.Base.{
  ℕ, ℤ, ◌≡◌, refl, true, false, Text, codes, text_eq, List, [], ◌∷◌, ◌++◌, Option, some,
  if◌then◌else◌,
}
use p2box.Drivers.{Driver}
use p2box.Drivers.ErrDriver.{err_driver}
use p2box.Drivers.Serial.{
  Call, create, start, get_url, stop, Mutex, mutex, after, after_all, serial_driver,
  after_all-serial_driver,
}
use p2box.VirtualBox.Creating.{parse_share_folder}
use p2box.VirtualBox.Creating.Shares.{parse_share_folder-append}

abbrev refusing : Driver (Mutex ℕ)
refusing = err_driver "virtualbox"

abbrev unused : Mutex ℕ
unused = record { held = false; blocked = 0; inner = 7 }

abbrev calls : List (Call (Mutex ℕ))
calls = create ∷ start ∷ get_url ∷ stop ∷ []

refusing-LeavesHeld :
    (c : Call (Mutex ℕ)) (m : Mutex ℕ)
    → m.held ≡ true
    → ((after refusing c m).held ≡ true) × ((after refusing c m).blocked ≡ m.blocked)
unfolding err_driver
refusing-LeavesHeld create m h = (h, refl)
refusing-LeavesHeld c m h = (h, refl)

after_all-serial_driver_example :
    ((after_all (serial_driver mutex refusing) calls unused).held ≡ false)
    × ((after_all (serial_driver mutex refusing) calls unused).blocked ≡ 0)
after_all-serial_driver_example =
    after_all-serial_driver refusing calls unused refusing-LeavesHeld refl

parse_share_folder-append_example :
    parse_share_folder (codes "c:/Users" ++ (b':' ∷ codes "home"))
    ≡ (codes "c:/Users", codes "home")
parse_share_folder-append_example =
    parse_share_folder-append (codes "c:/Users") (codes "home") (refl, (refl, (refl, (refl, tt))))

abbrev digit : Text → Option ℤ
digit s = if text_eq s (codes "6") then some (ℤ.pos 6) else some (ℤ.pos 1)
