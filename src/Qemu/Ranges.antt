-- ===== src/Qemu/Ranges.antt =====
-- The ranges of ports, as they are written and as ports are chosen from them.
use p2box.Base.{
  ◌⊎◌, sym, subst, ℕ, zero, suc, ◌+◌, ◌-◌, ◌≤◌, ◌<◌, false, Text, [], ◌∷◌, ◌++◌, Option, some,
  split-append, split-Lacks, Lacks, ◌==◌, ◌≡◌, ◌≢◌, refl, arith, Bool-cases, inl, inr,
  if◌then◌else◌,
}
use p2box.Go.{panic, Result, ok, err, Go, ◌>>=◌}
use p2box.Go.Laws.{ok-injective}
use p2box.Qemu.Ports.{
  checked_range, parse_port_range, PortMachinery, is_whole_range, taken_or, tested, port_rounds,
  random_round, get_available_tcp_port_from_range,
}

module _ (atoi : Text → Option ℕ) where
  -- Two numbers with a '-' between them are read as a range, if the second one is greater by 2 or
  -- more, and are an error otherwise.
  pub parse_port_range-append :
      (a b : Text) (min max : ℕ)
      → Lacks a b'-'
      → Lacks b b'-'
      → atoi a ≡ some min
      → atoi b ≡ some max
      → parse_port_range atoi (a ++ (b'-' ∷ b)) ≡ checked_range min max
  unfolding parse_port_range
  parse_port_range-append [] b min max la lb ha hb = rw (split-Lacks b b'-' lb, ha, hb) refl
  parse_port_range-append (c ∷ a) b min max la lb ha hb =
      rw (split-append (c ∷ a) b b'-' la, split-Lacks b b'-' lb, ha, hb) refl

  -- One number alone makes the driver panic.
  pub parse_port_range_panics :
      (a : Text) (n : ℕ)
      → a ≢ []
      → Lacks a b'-'
      → atoi a ≡ some n
      → parse_port_range atoi a ≡ err (panic "index out of range")
  unfolding parse_port_range
  parse_port_range_panics [] n ne l h = absurd (ne refl)
  parse_port_range_panics (c ∷ a) n ne l h = rw (split-Lacks (c ∷ a) b'-' l, h) refl

module _ {W : Type 0} (m : PortMachinery W) where
  -- rand.Intn is below its argument, and a listener has the port that was asked for.
  abbrev pub Draws : Type 0
  Draws = (n : ℕ) (w : W) → 0 < n → (m.intn n w).0 < n

  abbrev pub Listens : Type 0
  Listens = (port p : ℕ) (w : W) → 0 < port → (m.listen port w).0 ≡ ok p → p ≡ port

  -- A round takes a port that is not 0, or leaves it to the next one.
  taken_cases :
      (rest : Go W ℕ) (q p : ℕ) (w : W)
      → (taken_or m rest q w).0 ≡ ok p
      → (p ≡ q) ⊎ ((w' : W) × ((rest w').0 ≡ ok p))
  taken_cases rest q p w h = elim (Bool-cases (q == 0)) [
    | inl e ↦ inr (m.pause w, subst (λ b. (if b then rest (m.pause w) else (ok q, w)).0 ≡ ok p) e h)
    | inr e ↦
        inl (
          sym
            (ok-injective (subst (λ b. (if b then rest (m.pause w) else (ok q, w)).0 ≡ ok p) e h)))
  ]

  tested_cases :
      (rest : Go W ℕ) (r : Result ℕ) (p : ℕ) (w : W)
      → (tested m rest r w).0 ≡ ok p
      → ((q : ℕ) × (r ≡ ok q) × (p ≡ q)) ⊎ ((w' : W) × ((rest w').0 ≡ ok p))
  tested_cases rest (err e) p w h = inr (w, h)
  tested_cases rest (ok q) p w h = elim (taken_cases rest q p w h) [
    | inl e ↦ inl (q, refl, e)
    | inr again ↦ inr again
  ]

  module _ (draws : Draws) (listens : Listens) (min max : ℕ) (low : 0 < min) (gap : min < max)
      (part : is_whole_range m min max ≡ false) where
    random_round_within :
        (rest : Go W ℕ)
        → ((p : ℕ) (w : W) → (rest w).0 ≡ ok p → (min ≤ p) × (p < max))
        → (p : ℕ) (w : W) → (random_round m min max rest w).0 ≡ ok p
        → (min ≤ p) × (p < max)
    random_round_within rest within p w h =
        let (n, w') = m.intn (max - min) w in
        let drawn = draws (max - min) w (omega arith) in
        let (r, w'') = m.listen (n + min) w' in
        elim (tested_cases rest r p w'' h) [
          | inl (q, e, same) ↦
              let port = listens (n + min) q w' (omega arith) e in (omega arith, omega arith)
          | inr (v, again) ↦ within p v again
        ]

    rounds_within : (n p : ℕ) (w : W) → (port_rounds m min max n w).0 ≡ ok p → (min ≤ p) × (p < max)
    unfolding port_rounds
    rounds_within zero p w h = cc
    rounds_within (suc n) p w h =
        random_round_within (port_rounds m min max n) (rounds_within n) p w (
          subst
            (λ b.
              (if b
                then (m.listen 0 >>= taken_or m (port_rounds m min max n)) w
                else random_round m min max (port_rounds m min max n) w).0
              ≡ ok p)
            part h)

    -- From a range that is not the whole one and whose lower bound is above 0, a port is taken that
    -- lies in the range: it is at least the lower bound and below the upper one, which is itself
    -- never taken. The numbers that are drawn are below the bound of the draw, and a listener has
    -- the port that was asked for, unless 0 was.
    pub get_available_tcp_port_from_range_within :
        (p : ℕ) (w : W)
        → (get_available_tcp_port_from_range m min max w).0 ≡ ok p
        → (min ≤ p) × (p < max)
    unfolding get_available_tcp_port_from_range
    get_available_tcp_port_from_range_within p w h = rounds_within 11 p w h
