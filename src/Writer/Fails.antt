-- ===== src/Writer/Fails.antt =====
-- When code over a writer of wincode/src/io ends with an error after it has written given bytes.
use wincode.Prelude.{
  Bool-cases, ℕ, ◌+◌, ◌-◌, ◌≤◌, ◌≡◌, refl, ◌⊎◌, inl, inr, true, false, List, [], ◌++◌, length, leb,
  le→leb, checked_add-fits, checked_add-overflows, max_usize, err, IsErr,
}
use wincode.Error.{WriteError, size_limit_write}
use wincode.Writer.{
  Writer, slice, slice_unchecked, vec, vec_unchecked, cursor_slice, cursor_vec, vec_pos_unchecked,
  Write, ◌▸◌, prepare_write, as_trusted_for,
}
use wincode.Writer.Room.{
  has_room, push, IsChecked, IsReady, IsReady-push, IsChecked-push, has_room-append,
}
use wincode.Writer.Writes.{Writes}

-- `m` ends with an error and writes `bs` at most, on every writer that is checked or has room for
-- them.
pub record Fails (m : Write) (bs : List ℕ) : Type 0 where
  pub at : (w : Writer) → IsReady w → IsChecked w ⊎ (has_room (length bs) w ≡ true) → IsErr (m w)

pub Fails-raise : (e : WriteError) → Fails (λ w. err e) []
Fails-raise e = record { at = λ w r c. (e, refl) }

pub Fails-seq : {m n : Write} {bs cs : List ℕ} → Writes m bs → Fails n cs → Fails (m ▸ n) (bs ++ cs)
Fails-seq {m} {n} {bs} {cs} wm fn = record {
  at = λ w r c. elim (Bool-cases (has_room (length bs) w)) [
    | inl enough ↦
        rw (wm.fits w r enough) (fn.at (push bs w) (IsReady-push bs w r enough) (pushed w r c))
    | inr short ↦ stopped w r c short
  ];
}
  where
    pushed :
        (w : Writer)
        → IsReady w
        → IsChecked w ⊎ (has_room (length (bs ++ cs)) w ≡ true)
        → IsChecked (push bs w) ⊎ (has_room (length cs) (push bs w) ≡ true)
    pushed w r (inl c) = inl (IsChecked-push bs w c)
    pushed w r (inr room) = inr ((has_room-append bs cs w r).0 room).1

    stopped :
        (w : Writer)
        → IsReady w
        → IsChecked w ⊎ (has_room (length (bs ++ cs)) w ≡ true)
        → has_room (length bs) w ≡ false
        → IsErr ((m ▸ n) w)
    stopped w r (inl c) short = let (e, q) = wm.refuses w r c short in (e, rw q)
    stopped w r (inr room) short = let enough = ((has_room-append bs cs w r).0 room).0 in absurd cc

-- A trusted window with room for the bytes changes nothing about it.
pub Fails-window :
    {m : Write} {bs : List ℕ} (n : ℕ) → length bs ≤ n → Fails m bs → Fails (as_trusted_for n m) bs
unfolding as_trusted_for prepare_write
Fails-window {m} {bs} n h fails = record { at = at }
  where
    room : leb (length bs) n ≡ true
    room = le→leb (length bs) n h

    at :
        (w : Writer)
        → IsReady w
        → IsChecked w ⊎ (has_room (length bs) w ≡ true)
        → IsErr (as_trusted_for n m w)
    at (slice out k) r c = elim (Bool-cases (leb n k)) [
      | inl fits ↦
          let (e, q) = fails.at (slice_unchecked [] n) tt (inr room) in
          (e, rw (fits, q, as_trusted_for) refl)
      | inr short ↦ (size_limit_write n, rw (short, as_trusted_for) refl)
    ]
    at (slice_unchecked out k) r c = fails.at (slice_unchecked out k) r c
    at (vec buf) r c =
        let (e, q) = fails.at (vec_unchecked buf n) tt (inr room) in
        (e, rw (q, as_trusted_for) refl)
    at (vec_unchecked buf k) r c = fails.at (vec_unchecked buf k) r c
    at (cursor_slice buf pos) r c = elim (Bool-cases (leb n (length buf - pos))) [
      | inl fits ↦
          let (e, q) = fails.at (slice_unchecked [] n) tt (inr room) in
          (e, rw (fits, q, as_trusted_for) refl)
      | inr short ↦ (size_limit_write n, rw (short, as_trusted_for) refl)
    ]
    at (cursor_vec buf pos) r c = elim (Bool-cases (leb (pos + n) max_usize)) [
      | inl fits ↦
          let (e, q) = fails.at (vec_pos_unchecked buf pos n) r.0 (inr room) in
          (e, rw (checked_add-fits pos n fits, q, as_trusted_for, prepare_write) refl)
      | inr short ↦ (
        size_limit_write n,
        rw (checked_add-overflows pos n short, as_trusted_for, prepare_write) refl,
      )
    ]
    at (vec_pos_unchecked buf pos k) r c = fails.at (vec_pos_unchecked buf pos k) r c
