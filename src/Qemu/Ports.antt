-- ===== src/Qemu/Ports.antt =====
-- drivers/qemu/qemu.go: the ports of the host that are forwarded to a machine.
use p2box.Base.{
  ℕ, zero, suc, ◌+◌, ◌-◌, Bool, Text, List, [], ◌∷◌, Option, none, some, split, ltb, ◌==◌, ◌&&◌,
  if◌then◌else◌,
}
use p2box.Drivers.{Method}
use p2box.Drivers.BaseDriver.{is_empty}
use p2box.Go.{Error, message, panic, Result, ok, err, Go, fail, ◌>>=◌}

abbrev pub invalid_port_range : Error
invalid_port_range = message "Invalid port range"

abbrev pub checked_range : ℕ → ℕ → Result (ℕ × ℕ)
checked_range min_port max_port =
    if ltb max_port min_port
    then err invalid_port_range
    else if ltb (max_port - min_port) 2
    then err (message "Port range must be minimum 2 ports")
    else ok (min_port, max_port)

-- `atoi` is strconv.Atoi on a part of the text, which has no '-' and so no negative number.
module _ (atoi : Text → Option ℕ) where
  abbrev pub upper_port : ℕ → Option ℕ → Result (ℕ × ℕ)
  upper_port min_port none = err invalid_port_range
  upper_port min_port (some max_port) = checked_range min_port max_port

  -- The first part is read before the second one is looked at.
  abbrev pub range_of_parts : Option ℕ → List Text → Result (ℕ × ℕ)
  range_of_parts none rest = err invalid_port_range
  range_of_parts (some min_port) [] = err (panic "index out of range")
  range_of_parts (some min_port) (upper ∷ rest) = upper_port min_port (atoi upper)

  abbrev pub range_of : List Text → Result (ℕ × ℕ)
  range_of [] = err (panic "index out of range")
  range_of (lower ∷ rest) = range_of_parts (atoi lower) rest

  unfoldable pub parse_port_range : Text → Result (ℕ × ℕ)
  parse_port_range raw_port_range =
      if is_empty raw_port_range then ok (0, 65535) else range_of (split raw_port_range b'-')

-- rand.Intn; `net.Listen` on a port of 127.0.0.1, with the port in the address that it got; the
-- pause of one nanosecond; and the close of the listeners when the function returns.
pub record PortMachinery (W : Type 0) : Type 0 where
  pub intn : ℕ → Method W ℕ
  pub listen : ℕ → Go W ℕ
  pub pause : W → W
  pub close_listeners : W → W

module _ {W : Type 0} (m : PortMachinery W) where
  abbrev pub get_random_port_number_in_range : ℕ → ℕ → Method W ℕ
  get_random_port_number_in_range min max w = let (n, w') = m.intn (max - min) w in (n + min, w')

  abbrev pub is_whole_range : ℕ → ℕ → Bool
  is_whole_range min_port max_port = (min_port == 0) && (max_port == 65535)

  abbrev pub no_port : Error
  no_port = message "unable to allocate tcp port"

  -- What a listener means for the loop, whose further rounds are `rest`.
  abbrev pub taken_or : Go W ℕ → ℕ → Go W ℕ
  taken_or rest p w = if p == 0 then rest (m.pause w) else (ok p, w)

  -- A port in use starts the next round.
  abbrev pub tested : Go W ℕ → Result ℕ → Go W ℕ
  tested rest (ok p) = taken_or rest p
  tested rest (err e) = rest

  abbrev pub random_round : ℕ → ℕ → Go W ℕ → Go W ℕ
  random_round min_port max_port rest w =
      let (port, w') = get_random_port_number_in_range min_port max_port w in
      let (r, w'') = m.listen port w' in tested rest r w''

  abbrev pub round : ℕ → ℕ → Go W ℕ → Go W ℕ
  round min_port max_port rest w =
      if is_whole_range min_port max_port
      then (m.listen 0 >>= taken_or rest) w
      else random_round min_port max_port rest w

  unfoldable pub port_rounds : ℕ → ℕ → ℕ → Go W ℕ
  port_rounds min_port max_port zero = fail no_port
  port_rounds min_port max_port (suc n) = round min_port max_port (port_rounds min_port max_port n)

  unfoldable pub get_available_tcp_port_from_range : ℕ → ℕ → Go W ℕ
  get_available_tcp_port_from_range min_port max_port w =
      let (r, w') = port_rounds min_port max_port 11 w in (r, m.close_listeners w')

  -- The port of the engine, asked for again while it is the one of ssh. Fuel is a number of rounds,
  -- and there is no result where it is used up.
  unfoldable pub engine_port : ℕ → ℕ → ℕ → ℕ → W → Option (Result ℕ × W)
  engine_port zero min_port max_port ssh_port w = none
  engine_port (suc fuel) min_port max_port ssh_port w =
      let (r, w') = get_available_tcp_port_from_range min_port max_port w in
      let again = engine_port fuel min_port max_port ssh_port w' in
      elim r [ ok p ↦ if p == ssh_port then again else some (ok p, w') | err e ↦ some (err e, w') ]
