-- ===== src/Drivers/Serial.antt =====
-- libmachine/drivers/serial.go: a driver whose calls take a lock that all drivers share.
use p2box.Base.{if◌then◌else◌, suc, ap, ◌∙◌, Bool, true, false, ◌≡◌, refl, List, [], ◌∷◌, ℕ}
use p2box.Drivers.{Driver, DriverOptions, Method}

-- sync.Locker
pub record Locker (W : Type 0) : Type 0 where
  pub lock : W → W
  pub unlock : W → W

-- d.Lock(); defer d.Unlock(); return m(). The deferred call runs after a panic, too.
abbrev pub locked : {W A : Type 0} → Locker W → Method W A → Method W A
locked l m w = let (a, w') = m (l.lock w) in (a, l.unlock w')

unfoldable pub serial_driver : {W : Type 0} → Locker W → Driver W → Driver W
serial_driver l d = record {
  create = locked l d.create;
  driver_name = locked l d.driver_name;
  get_create_flags = locked l d.get_create_flags;
  get_ip = locked l d.get_ip;
  get_machine_name = locked l d.get_machine_name;
  get_ssh_hostname = locked l d.get_ssh_hostname;
  get_ssh_key_path = locked l d.get_ssh_key_path;
  get_ssh_port = locked l d.get_ssh_port;
  get_ssh_username = locked l d.get_ssh_username;
  get_url = locked l d.get_url;
  get_state = locked l d.get_state;
  kill = locked l d.kill;
  pre_create_check = locked l d.pre_create_check;
  remove = locked l d.remove;
  restart = locked l d.restart;
  set_config_from_flags = λ opts. locked l (d.set_config_from_flags opts);
  start = locked l d.start;
  stop = locked l d.stop;
}

-- The calls that a client of a driver can make.
pub data Call (W : Type 0) : Type 0 where
  create driver_name get_create_flags get_ip get_machine_name get_ssh_hostname : Call W
  get_ssh_key_path get_ssh_port get_ssh_username get_url get_state : Call W
  kill pre_create_check remove restart start stop : Call W
  set_config_from_flags : DriverOptions W → Call W

-- What a call does to the world.
abbrev pub after : {W : Type 0} → Driver W → Call W → W → W
after d create w = (d.create w).1
after d driver_name w = (d.driver_name w).1
after d get_create_flags w = (d.get_create_flags w).1
after d get_ip w = (d.get_ip w).1
after d get_machine_name w = (d.get_machine_name w).1
after d get_ssh_hostname w = (d.get_ssh_hostname w).1
after d get_ssh_key_path w = (d.get_ssh_key_path w).1
after d get_ssh_port w = (d.get_ssh_port w).1
after d get_ssh_username w = (d.get_ssh_username w).1
after d get_url w = (d.get_url w).1
after d get_state w = (d.get_state w).1
after d kill w = (d.kill w).1
after d pre_create_check w = (d.pre_create_check w).1
after d remove w = (d.remove w).1
after d restart w = (d.restart w).1
after d start w = (d.start w).1
after d stop w = (d.stop w).1
after d (set_config_from_flags opts) w = (d.set_config_from_flags opts w).1

abbrev pub after_all : {W : Type 0} → Driver W → List (Call W) → W → W
after_all d [] w = w
after_all d (c ∷ cs) w = after_all d cs (after d c w)

after-serial_driver :
    {W : Type 0} (l : Locker W) (d : Driver W) (c : Call W) (w : W)
    → after (serial_driver l d) c w ≡ l.unlock (after d c (l.lock w))
unfolding serial_driver
after-serial_driver l d create w = refl
after-serial_driver l d driver_name w = refl
after-serial_driver l d get_create_flags w = refl
after-serial_driver l d get_ip w = refl
after-serial_driver l d get_machine_name w = refl
after-serial_driver l d get_ssh_hostname w = refl
after-serial_driver l d get_ssh_key_path w = refl
after-serial_driver l d get_ssh_port w = refl
after-serial_driver l d get_ssh_username w = refl
after-serial_driver l d get_url w = refl
after-serial_driver l d get_state w = refl
after-serial_driver l d kill w = refl
after-serial_driver l d pre_create_check w = refl
after-serial_driver l d remove w = refl
after-serial_driver l d restart w = refl
after-serial_driver l d start w = refl
after-serial_driver l d stop w = refl
after-serial_driver l d (set_config_from_flags opts) w = refl

-- A lock that is free or held, and counts the attempts to take it while it is held.
pub record Mutex (W : Type 0) : Type 0 where
  pub held : Bool
  pub blocked : ℕ
  pub inner : W

abbrev pub mutex : {W : Type 0} → Locker (Mutex W)
mutex = record {
  lock = λ m. record m { held = true; blocked = if m.held then suc m.blocked else m.blocked };
  unlock = λ m. record m { held = false };
}

-- No call of the driver itself frees the lock, or waits for it, where it is held already.
abbrev pub LeavesHeld : {W : Type 0} → Driver (Mutex W) → Type 0
LeavesHeld {W} d =
    (c : Call (Mutex W)) (m : Mutex W)
    → m.held ≡ true
    → ((after d c m).held ≡ true) × ((after d c m).blocked ≡ m.blocked)

-- Any sequence of calls to a serial driver that begins with a free lock ends with a free lock, and
-- no call waits for the lock, so long as the calls of the driver itself leave a lock alone that is
-- held.
pub after_all-serial_driver :
    {W : Type 0} (d : Driver (Mutex W)) (cs : List (Call (Mutex W))) (m : Mutex W)
    → LeavesHeld d
    → m.held ≡ false
    → ((after_all (serial_driver mutex d) cs m).held ≡ false)
      × ((after_all (serial_driver mutex d) cs m).blocked ≡ m.blocked)
after_all-serial_driver d [] m keeps free = (free, refl)
after_all-serial_driver {W} d (c ∷ cs) m keeps free =
    let taken : Mutex W = (mutex {W = W}).lock m in
    let (h, b) = keeps c taken refl in
    let step = after-serial_driver mutex d c m in
    let (h', b') =
      after_all-serial_driver d cs (after (serial_driver mutex d) c m) keeps
        (ap (λ (x : Mutex W). x.held) step) in
    let unblocked : taken.blocked ≡ m.blocked = rw free in
    (h', b' ∙ ap (λ (x : Mutex W). x.blocked) step ∙ b ∙ unblocked)
