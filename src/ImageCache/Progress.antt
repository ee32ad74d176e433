-- ===== src/ImageCache/Progress.antt =====
-- libmachine/mcnutils/b2p.go: the progress that a download prints.
pub mod Chunks
use p2box.Base.{
  ℕ, zero, suc, ◌+◌, ◌*◌, ◌/◌, ◌%◌, Bool, List, [], ◌∷◌, ◌++◌, Option, none, some, leb, ◌==◌,
  if◌then◌else◌,
}

-- What is printed: a percentage, or a dot.
pub data Mark : Type 0 where
  percent : ℕ → Mark
  dot : Mark

-- `expected_length` is none where the length is not known, which is -1 in the code.
pub record Progress : Type 0 where
  pub out : List Mark
  pub bytes_transferred : ℕ
  pub expected_length : Option ℕ
  pub next_percent_to_print : ℕ

abbrev pub mark_of : ℕ → List Mark
mark_of next = if next % 10 == 0 then percent next ∷ [] else if next % 2 == 0 then dot ∷ [] else []

abbrev pub bump : Progress → Progress
bump r = record r {
  out = r.out ++ mark_of r.next_percent_to_print;
  next_percent_to_print = r.next_percent_to_print + 2;
}

-- The loop, with fuel for its rounds.
unfoldable pub print_up_to : ℕ → ℕ → Progress → Progress
print_up_to zero percentage r = r
print_up_to (suc fuel) percentage r =
    let more = print_up_to fuel percentage (bump r) in
    if leb r.next_percent_to_print percentage then more else r

abbrev pub add_bytes : ℕ → Progress → Progress
add_bytes n r = record r { bytes_transferred = r.bytes_transferred + n }

abbrev pub print_progress : ℕ → Progress → Progress
print_progress percentage r = print_up_to (suc percentage) percentage r

-- A percentage of an unknown length is below 0, so that nothing is printed; of the length 0 it is a
-- division by zero, which is none.
abbrev pub with_percentage : Option ℕ → Progress → Option Progress
with_percentage none r = some r
with_percentage (some zero) r = none
with_percentage (some (suc l)) r = some (print_progress (r.bytes_transferred * 100 / suc l) r)

-- `Read`, after the reader below it gave `n` bytes.
unfoldable pub read_chunk : ℕ → Progress → Option Progress
read_chunk zero r = some r
read_chunk (suc n) r = with_percentage r.expected_length (add_bytes (suc n) r)

abbrev pub then_read : (Progress → Option Progress) → Option Progress → Option Progress
then_read f none = none
then_read f (some r) = f r

-- The calls of `Read` of one download.
unfoldable pub read_chunks : List ℕ → Progress → Option Progress
read_chunks [] r = some r
read_chunks (n ∷ ns) r = then_read (read_chunks ns) (read_chunk n r)
