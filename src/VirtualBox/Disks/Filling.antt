-- ===== src/VirtualBox/Disks/Filling.antt =====
-- That filling a disk image ends, and what it writes.
use p2box.Base.{ℕ, zero, suc, ◌+◌, ◌-◌, ◌≤◌, ◌<◌, ◌≡◌, ◌⊎◌, inl, inr, refl, sym, arith, some}
use p2box.Go.{Error, ok, err, Go}
use p2box.VirtualBox.Disks.{zero_fill, chunk}

module _ {W : Type 0} (write : ℕ → Go W ℕ) (written : W → ℕ) where
  -- As io.Writer says: a write without an error writes all bytes.
  abbrev pub WritesAll : Type 0
  WritesAll =
      (k : ℕ) (w : W)
      → (((write k w).0 ≡ ok k) × (written (write k w).1 ≡ written w + k))
        ⊎ ((e : Error) × ((write k w).0 ≡ err e))

  -- An error that a write returned, with the world that it left, when fewer than n bytes had been
  -- written since the world w.
  abbrev pub IsOfWrite : ℕ → W → Error → W → Type 0
  IsOfWrite n w e w' =
      (k : ℕ) × (v : W) × ((write k v).0 ≡ err e)
      × ((write k v).1 ≡ w')
      × (written w ≤ written v)
      × (written v < written w + n)

  -- What the loop gives on a fuel: n bytes more, or the error of a write.
  abbrev pub Filled : ℕ → ℕ → W → Type 0
  Filled fuel n w =
      (w' : W) × (((zero_fill write fuel n w ≡ some (ok tt, w')) × (written w' ≡ written w + n))
        ⊎ ((e : Error) × (zero_fill write fuel n w ≡ some (err e, w')) × IsOfWrite n w e w'))

  chunk-bounds : (n : ℕ) → (chunk write (suc n) ≤ suc n) × (1 ≤ chunk write (suc n))
  chunk-bounds n = (ground arith, ground arith)

  zero_fill-written :
      (fuel n c : ℕ) (w : W)
      → c ≡ chunk write (suc n)
      → ((write c w).0 ≡ ok c)
      → (written (write c w).1 ≡ written w + c)
      → Filled fuel (suc n - c) (write c w).1
      → Filled (suc fuel) (suc n) w
  unfolding zero_fill
  zero_fill-written fuel n c w e q more (w', inl (ran, sum)) =
      (w', inl (rw (sym e, q) ran, omega (arith, chunk-bounds n)))
  zero_fill-written fuel n c w e q more (w', inr (x, ran, (k, v, failed, there, low, high))) = (
    w',
    inr (x, rw (sym e, q) ran, (k, v, failed, there, omega arith, omega (arith, chunk-bounds n))),
  )

  -- With a writer that writes all bytes or fails, and fuel for each of the bytes, the loop ends: with
  -- exactly n zero bytes more, or with the error that a write returned and the world that it left,
  -- before n bytes had been written.
  pub zero_fill-Filled : WritesAll → (fuel n : ℕ) (w : W) → n ≤ fuel → Filled fuel n w
  unfolding zero_fill
  zero_fill-Filled all zero zero w h = (w, inl (refl, omega arith))
  zero_fill-Filled all zero (suc n) w h = absurd (omega arith)
  zero_fill-Filled all (suc fuel) zero w h = (w, inl (refl, omega arith))
  zero_fill-Filled all (suc fuel) (suc n) w h =
      let c = chunk write (suc n) in
      elim (all c w) [
        | inl (q, more) ↦
            zero_fill-written fuel n c w refl q more
              (zero_fill-Filled all fuel (suc n - c) (write c w).1 (omega (arith, chunk-bounds n)))
        | inr (e, q) ↦
            ((write c w).1, inr (e, rw q refl, (c, w, q, refl, omega arith, omega arith)))
      ]
