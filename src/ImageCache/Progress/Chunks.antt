-- ===== src/ImageCache/Progress/Chunks.antt =====
-- The progress does not depend on how a download is cut into chunks.
use native.Mathlib.Nat.{le-div_iff_mul-le, div-mul-le_self}
use p2box.Base.{
  fun_ext, ◌*◌, ◌/◌, List, [], ◌∷◌, Option, none, some, ap, ◌+◌, ◌-◌, subst, ℕ, zero, suc, ◌+◌, ◌≤◌,
  ◌<◌, Bool, leb, ◌≡◌, refl, sym, ◌∙◌, arith, Bool-cases, inl, inr, if◌then◌else◌,
}
use p2box.ImageCache.Progress.{
  with_percentage, then_read, read_chunks, read_chunk, print_progress, Progress, bump, print_up_to,
  add_bytes,
}

-- With fuel enough, more fuel changes nothing.
print_up_to-stable :
    (f g p : ℕ) (r : Progress)
    → p < r.next_percent_to_print + f
    → p < r.next_percent_to_print + g
    → print_up_to f p r ≡ print_up_to g p r
unfolding print_up_to
print_up_to-stable zero zero p r hf hg = refl
print_up_to-stable zero (suc g) p r hf hg = ground arith
print_up_to-stable (suc f) zero p r hf hg = ground arith
print_up_to-stable (suc f) (suc g) p r hf hg =
    ground (arith, print_up_to-stable f g p (bump r) (omega arith) (omega arith))

print_up_to-step :
    (h q : ℕ) (r : Progress)
    → r.next_percent_to_print ≤ q
    → q < r.next_percent_to_print + h
    → print_up_to h q r ≡ print_up_to (h - 1) q (bump r)
unfolding print_up_to
print_up_to-step zero q r le lt = absurd (omega arith)
print_up_to-step (suc h) q r le lt = ground arith

print_up_to-again :
    (f g h p q : ℕ) (r : Progress)
    → p ≤ q
    → p < r.next_percent_to_print + f
    → q < (print_up_to f p r).next_percent_to_print + g
    → q < r.next_percent_to_print + h
    → print_up_to g q (print_up_to f p r) ≡ print_up_to h q r
unfolding print_up_to
print_up_to-again zero g h p q r pq hf hg hh = print_up_to-stable g h q r hg hh
print_up_to-again (suc f) g h p q r pq hf hg hh =
    let next = r.next_percent_to_print in
    let left = λ (b : Bool). if b then print_up_to f p (bump r) else r in
    elim (Bool-cases (leb next p)) [
      | inl e ↦
          let below : next ≤ p = ground arith in
          let there = subst (λ b. q < (left b).next_percent_to_print + g) e hg in
          rw e (
            print_up_to-again f g (h - 1) p q (bump r) pq (omega arith) there (omega arith)
            ∙ sym (print_up_to-step h q r (omega arith) (omega arith)))
      | inr e ↦
          rw e (
            print_up_to-stable g h q r (subst (λ b. q < (left b).next_percent_to_print + g) e hg)
              hh)
    ]

-- The loop neither reads nor changes the number of bytes.
add_bytes-print_up_to :
    (m f p : ℕ) (r : Progress) → add_bytes m (print_up_to f p r) ≡ print_up_to f p (add_bytes m r)
unfolding print_up_to
add_bytes-print_up_to m zero p r = refl
add_bytes-print_up_to m (suc f) p r = elim (Bool-cases (leb r.next_percent_to_print p)) [
  | inl e ↦ rw e (add_bytes-print_up_to m f p (bump r))
  | inr e ↦ rw e refl
]

print_up_to_keeps :
    (f p : ℕ) (r : Progress)
    → ((print_up_to f p r).bytes_transferred ≡ r.bytes_transferred)
      × ((print_up_to f p r).expected_length ≡ r.expected_length)
unfolding print_up_to
print_up_to_keeps zero p r = (refl, refl)
print_up_to_keeps (suc f) p r = elim (Bool-cases (leb r.next_percent_to_print p)) [
  | inl e ↦ rw e (print_up_to_keeps f p (bump r))
  | inr e ↦ rw e (refl, refl)
]

div_le : (x y l : ℕ) → x ≤ y → x / suc l ≤ y / suc l
div_le x y l h = (le-div_iff_mul-le (omega arith)).1 (omega (arith, div-mul-le_self x (suc l)))

abbrev pub total : List ℕ → ℕ
total [] = 0
total (n ∷ ns) = n + total ns

plus_assoc : (a b c : ℕ) → a + b + c ≡ a + (b + c)
plus_assoc a b c = omega arith

-- Printing up to a percentage and then up to one that is as great is printing up to the second.
print_progress-again :
    (m p q : ℕ) (r : Progress)
    → p ≤ q
    → print_progress q (add_bytes m (print_progress p r)) ≡ print_progress q (add_bytes m r)
print_progress-again m p q r le =
    ap (print_up_to (suc q) q) (add_bytes-print_up_to m (suc p) p r)
    ∙ print_up_to-again (suc p) (suc q) (suc q) p q (add_bytes m r) le (omega arith) (omega arith)
        (omega arith)

percentage : ℕ → ℕ → ℕ
percentage l b = b * 100 / suc l

two_reads :
    (n m l : ℕ) (r : Progress)
    → (let r' = print_progress (percentage l (r.bytes_transferred + n)) (add_bytes n r) in
        print_progress (percentage l (r'.bytes_transferred + m)) (add_bytes m r')
        ≡ print_progress (percentage l (r.bytes_transferred + (n + m))) (add_bytes (n + m) r))
unfolding percentage
two_reads n m l r =
    let b = r.bytes_transferred in
    let p = percentage l (b + n) in
    let assoc : b + n + m ≡ b + (n + m) = omega arith in
    let r' = print_progress p (add_bytes n r) in
    ap (λ (t : ℕ). print_progress (percentage l (t + m)) (add_bytes m r'))
      ((print_up_to_keeps (suc p) p (add_bytes n r)).0)
    ∙ (print_progress-again m p (percentage l (b + n + m)) (add_bytes n r)
          (div_le ((b + n) * 100) ((b + n + m) * 100) l (omega arith))
        ∙ ap (λ (t : ℕ). print_progress (percentage l t) (record r { bytes_transferred = t }))
            assoc)

-- Two chunks in a row are read as one chunk of both.
with_percentage-again :
    (o : Option ℕ) (x y : ℕ) (r : Progress)
    → r.expected_length ≡ o
    → then_read
        (λ r'. with_percentage r'.expected_length (add_bytes y r'))
        (with_percentage o (add_bytes x r))
      ≡ with_percentage o (add_bytes (x + y) r)
unfolding percentage
with_percentage-again none x y r e =
    ap (λ o. with_percentage o (add_bytes y (add_bytes x r))) e
    ∙ ap (λ (t : ℕ). some (record r { bytes_transferred = t })) (plus_assoc r.bytes_transferred x y)
with_percentage-again (some zero) x y r e = refl
with_percentage-again (some (suc l)) x y r e =
    let p = percentage l (r.bytes_transferred + x) in
    let r' = print_progress p (add_bytes x r) in
    ap (λ o. with_percentage o (add_bytes y r'))
      ((print_up_to_keeps (suc p) p (add_bytes x r)).1 ∙ e)
    ∙ ap some (two_reads x y l r)

then_read-zero : (o : Option Progress) → then_read (read_chunk 0) o ≡ o
unfolding read_chunk
then_read-zero none = refl
then_read-zero (some r) = refl

then_read-read_chunk :
    (n m : ℕ) (r : Progress) → then_read (read_chunk m) (read_chunk n r) ≡ read_chunk (n + m) r
unfolding read_chunk
then_read-read_chunk zero m r = let e : m ≡ 0 + m = omega arith in ap (λ (t : ℕ). read_chunk t r) e
then_read-read_chunk (suc n) zero r =
    let e : suc n ≡ suc n + 0 = omega arith in
    then_read-zero (read_chunk (suc n) r) ∙ ap (λ (t : ℕ). read_chunk t r) e
then_read-read_chunk (suc n) (suc m) r =
    let e : suc n + suc m ≡ suc (n + suc m) = omega arith in
    with_percentage-again r.expected_length (suc n) (suc m) r refl
    ∙ (ap (λ (t : ℕ). with_percentage r.expected_length (add_bytes t r)) e
        ∙ ap (λ (t : ℕ). read_chunk t r) (sym e))

-- However a download is cut into chunks, what is printed and what is counted are those of one
-- chunk of all its bytes.
pub read_chunks-total : (ns : List ℕ) (r : Progress) → read_chunks ns r ≡ read_chunk (total ns) r
unfolding read_chunks read_chunk
read_chunks-total [] r = refl
read_chunks-total (n ∷ ns) r =
    ap (λ (f : Progress → Option Progress). then_read f (read_chunk n r))
      (fun_ext (read_chunks-total ns))
    ∙ then_read-read_chunk n (total ns) r
