-- ===== src/Reader/StdCursor.antt =====
-- The cursors of `std::io` as readers, of wincode/src/io/std_read.rs.
use wincode.Prelude.{
  ℕ, ◌+◌, ◌-◌, ◌≤◌, ◌<◌, ◌≡◌, sym, true, false, ap, ◌∙◌, min, inl, inr, Option, none, some, List,
  length, length-drop, take, drop, ltb, ◌==◌, if◌then◌else◌, max_usize, leb-cases, arith,
}
use wincode.Reader.{advance_cursor_checked}
use wincode.Reader.View.{cursor_fits, cursor_short}

abbrev saturating_add : ℕ → ℕ → ℕ
saturating_add a b = min (a + b) max_usize

-- `cursor_advance`: the bytes and the new position, or none where it answers with an error. A
-- position is a `u64`, which is a `usize` too.
pub cursor_advance : List ℕ → ℕ → ℕ → Option (List ℕ × ℕ)
cursor_advance inner position n =
    let pos = min position (length inner) in
    let next_pos = saturating_add pos n in
    if ltb (length inner) next_pos
    then none
    else some (take (next_pos - pos) (drop pos inner), (if n == 0 then position else next_pos))

next_position :
    (position n len : ℕ)
    → n ≤ len - min position len
    → (if n == 0 then position else (min position len + n)) ≡ position + n
next_position position n len h = ground arith

-- On a buffer shorter than `usize::MAX`, the cursor of the standard library and the crate's own
-- cursor advance alike: the same bytes, the same new position and the same refusals, at every
-- position, also past the end.
pub cursor_advance-advance_cursor_checked :
    (inner : List ℕ) (position n : ℕ)
    → length inner < max_usize
    → cursor_advance inner position n ≡ advance_cursor_checked inner position n
unfolding cursor_advance
cursor_advance-advance_cursor_checked inner position n h =
    let pos = min position (length inner) in
    let rest : length (drop pos inner) ≡ length inner - pos = length-drop pos inner in
    elim (leb-cases n (length inner - pos)) [
      | inl (fits, _) ↦
          let sum : saturating_add pos n ≡ pos + n = omega arith in
          let inside : ltb (length inner) (pos + n) ≡ false = ground arith in
          let step : pos + n - pos ≡ n = omega arith in
          rw (sum, inside, step, cursor_advance)
            (ap (λ k. some (take n (drop pos inner), k))
                (next_position position n (length inner) fits)
              ∙ sym (cursor_fits inner position n (omega arith)))
      | inr (short, _) ↦
          let outside : ltb (length inner) (saturating_add pos n) ≡ true = ground arith in
          rw (outside, cursor_advance) (sym (cursor_short inner position n (omega arith)))
    ]
