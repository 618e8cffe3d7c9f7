-- ===== src/Writer/Writes.antt =====
-- When code over a writer of wincode/src/io writes given bytes, on every writer.
use mathlib.Core.Path.{subst}
use wincode.Prelude.{
  Bool, if◌then◌else◌, ℕ, zero, ◌+◌, ◌-◌, ◌≡◌, refl, sym, ap, ◌∙◌, inl, inr, true, false, List, [],
  ◌++◌, checked_add-fits, checked_add-overflows, length, le→leb, Bool-cases, ok, bind, IsErr, arith,
}
use wincode.Error.{size_limit_write}
use wincode.Writer.{
  Writer, slice, slice_unchecked, vec, vec_unchecked, cursor_slice, cursor_vec, vec_pos_unchecked,
  Write, ◌▸◌, done, write, write_slice, write_slice_unchecked, write_vec_unchecked,
  write_cursor_slice, write_cursor_vec, write_vec_pos_unchecked, prepare_write, as_trusted_for,
  close_slice, close_vec, close_cursor_vec,
}
use wincode.Writer.Room.{
  has_room, push, IsChecked, IsReady, copy_at-inside, copy_at-filled, IsReady-push, IsChecked-push,
  push-nil, push-push, has_room-append,
}

-- `m` writes exactly `bs`, on a writer whose position is not past its end: where there is room it
-- puts them in, and no less; a checked writer with too little room ends with an error.
pub record Writes (m : Write) (bs : List ℕ) : Type 0 where
  pub fits : (w : Writer) → IsReady w → has_room (length bs) w ≡ true → m w ≡ ok (push bs w)
  pub refuses :
      (w : Writer) → IsReady w → IsChecked w → has_room (length bs) w ≡ false → IsErr (m w)

module _ (bs : List ℕ) where
  write-fits :
      (w : Writer) → IsReady w → has_room (length bs) w ≡ true → write bs w ≡ ok (push bs w)
  unfolding write write_slice write_slice_unchecked write_vec_unchecked write_cursor_slice
      write_cursor_vec write_vec_pos_unchecked prepare_write
  write-fits (slice out room) r h = rw h
  write-fits (slice_unchecked out room) r h = rw h
  write-fits (vec buf) r h = refl
  write-fits (vec_unchecked buf room) r h = rw h
  write-fits (cursor_slice buf pos) r h =
      rw h (ap (λ b. ok (cursor_slice b (pos + length bs))) (copy_at-inside pos bs buf r))
  write-fits (cursor_vec buf pos) r h =
      rw (checked_add-fits pos (length bs) h, write_cursor_vec, prepare_write)
        (ap (λ b. ok (cursor_vec b (pos + length bs))) (copy_at-filled pos bs buf))
  write-fits (vec_pos_unchecked buf pos room) r h = rw h (
      ap (λ b. ok (vec_pos_unchecked b (pos + length bs) (room - length bs)))
        (copy_at-filled pos bs buf))

  write-refuses : (w : Writer) → IsChecked w → has_room (length bs) w ≡ false → IsErr (write bs w)
  unfolding write write_slice write_slice_unchecked write_vec_unchecked write_cursor_slice
      write_cursor_vec write_vec_pos_unchecked prepare_write
  write-refuses (slice out room) c h = (size_limit_write (length bs), rw h)
  write-refuses (slice_unchecked out room) c h = absurd c
  write-refuses (vec buf) c h = cc
  write-refuses (vec_unchecked buf room) c h = absurd c
  write-refuses (cursor_slice buf pos) c h = (size_limit_write (length bs), rw h)
  write-refuses (cursor_vec buf pos) c h = (
    size_limit_write (length bs),
    rw (checked_add-overflows pos (length bs) h, write_cursor_vec, prepare_write),
  )
  write-refuses (vec_pos_unchecked buf pos room) c h = absurd c

  -- `write` of every writer whose position is not past its end puts exactly the source's bytes in
  -- where there is room for them, and on a checked writer without room it answers with an error.
  pub Writes-write : Writes (write bs) bs
  Writes-write = record { fits = write-fits; refuses = λ w r c h. write-refuses w c h }

pub Writes-done : Writes done []
Writes-done = record {
  fits = λ w r h. ap ok (sym (push-nil w r));
  refuses = λ w r c h. absurd (always w r h);
}
  where
    always : (w : Writer) → IsReady w → has_room 0 w ≡ false → ⊥
    always (slice out room) r h = ground arith
    always (slice_unchecked out room) r h = ground arith
    always (vec buf) r h = cc
    always (vec_unchecked buf room) r h = ground arith
    always (cursor_slice buf pos) r h = ground arith
    always (cursor_vec buf pos) r h = ground arith
    always (vec_pos_unchecked buf pos room) r h = ground arith

module _ {m n : Write} {bs cs : List ℕ} (wm : Writes m bs) (wn : Writes n cs) where
  seq-refuses :
      (w : Writer)
      → IsReady w
      → IsChecked w
      → has_room (length (bs ++ cs)) w ≡ false
      → IsErr ((m ▸ n) w)
  seq-refuses w r c h = elim (Bool-cases (has_room (length bs) w)) [
    | inr short ↦ let (e, p) = wm.refuses w r c short in (e, rw p)
    | inl enough ↦ elim (Bool-cases (has_room (length cs) (push bs w))) [
      | inr short ↦
          let (e, p) =
            wn.refuses (push bs w) (IsReady-push bs w r enough) (IsChecked-push bs w c) short in
          (e, rw (wm.fits w r enough) p)
      | inl too ↦ cc ((has_room-append bs cs w r).1 (enough, too))
    ]
  ]

  -- Two writes in order write their bytes in order.
  pub Writes-seq : Writes (m ▸ n) (bs ++ cs)
  Writes-seq = record {
    fits = λ w r h.
        let (first, second) = (has_room-append bs cs w r).0 h in
        rw (wm.fits w r first)
          (wn.fits (push bs w) (IsReady-push bs w r first) second ∙ ap ok (push-push bs cs w));
    refuses = seq-refuses;
  }

module _ {m : Write} {bs : List ℕ} (wm : Writes m bs) where
  close-window :
      (parent : List ℕ → Writer)
      → bind (m (slice_unchecked [] (length bs))) (close_slice parent) ≡ ok (parent bs)
  unfolding close_slice
  close-window parent =
      let e : length bs - length bs ≡ zero = omega arith in
      rw (wm.fits (slice_unchecked [] (length bs)) tt (le→leb _ _ (omega arith))) (rw e refl)

  trusted-fits :
      (w : Writer)
      → IsReady w
      → has_room (length bs) w ≡ true
      → as_trusted_for (length bs) m w ≡ ok (push bs w)
  unfolding as_trusted_for close_vec close_cursor_vec prepare_write
  trusted-fits (slice out room) r h = rw h (close-window _)
  trusted-fits (slice_unchecked out room) r h = wm.fits (slice_unchecked out room) r h
  trusted-fits (vec buf) r h =
      rw (wm.fits (vec_unchecked buf (length bs)) tt (le→leb _ _ (omega arith)))
  trusted-fits (vec_unchecked buf room) r h = wm.fits (vec_unchecked buf room) r h
  trusted-fits (cursor_slice buf pos) r h = rw h (
      close-window _
      ∙ ap (λ b. ok (cursor_slice b (pos + length bs))) (copy_at-inside pos bs buf r))
  trusted-fits (cursor_vec buf pos) r h =
      rw (checked_add-fits pos (length bs) h, prepare_write)
        (rw (wm.fits (vec_pos_unchecked buf pos (length bs)) r.0 (le→leb _ _ (omega arith))))
  trusted-fits (vec_pos_unchecked buf pos room) r h = wm.fits (vec_pos_unchecked buf pos room) r h

  trusted-refuses :
      (w : Writer)
      → IsChecked w
      → has_room (length bs) w ≡ false
      → IsErr (as_trusted_for (length bs) m w)
  unfolding as_trusted_for prepare_write
  trusted-refuses (slice out room) c h = (size_limit_write (length bs), rw h)
  trusted-refuses (slice_unchecked out room) c h = absurd c
  trusted-refuses (vec buf) c h = cc
  trusted-refuses (vec_unchecked buf room) c h = absurd c
  trusted-refuses (cursor_slice buf pos) c h = (size_limit_write (length bs), rw h)
  trusted-refuses (cursor_vec buf pos) c h =
      (size_limit_write (length bs), rw (checked_add-overflows pos (length bs) h, prepare_write))
  trusted-refuses (vec_pos_unchecked buf pos room) c h = absurd c

  -- Code that writes given bytes writes the same bytes when it runs in a trusted window of their
  -- number, on every writer whose position is not past its end: with room the window is filled and
  -- the writer ends in the same state as without it, and a checked writer without room answers with
  -- an error.
  pub Writes-trusted : Writes (as_trusted_for (length bs) m) bs
  Writes-trusted = record { fits = trusted-fits; refuses = λ w r c h. trusted-refuses w c h }

pub Writes-cast : {m : Write} {bs cs : List ℕ} → bs ≡ cs → Writes m bs → Writes m cs
Writes-cast {m} e h = subst (Writes m) e h

pub Writes-if :
    (b : Bool) {m n : Write} {bs : List ℕ}
    → (b ≡ true → Writes m bs)
    → (b ≡ false → Writes n bs)
    → Writes (if b then m else n) bs
Writes-if true hm hn = hm refl
Writes-if false hm hn = hn refl

-- A trusted window whose size is given by another expression.
pub Writes-window :
    (n : ℕ) {m : Write} {bs : List ℕ} → n ≡ length bs → Writes m bs → Writes (as_trusted_for n m) bs
Writes-window n {m} {bs} e h =
    subst (λ k. Writes (as_trusted_for k m) bs) (sym e) (Writes-trusted h)
