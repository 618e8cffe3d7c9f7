-- ===== src/Writer/Room.antt =====
-- The room that a writer of wincode/src/io has, and what it holds after bytes are put in.
use wincode.Prelude.{
  ℕ, zero, suc, ◌+◌, ◌-◌, ◌≤◌, ◌≡◌, refl, sym, ap, ap₂, ◌∙◌, ◌↔◌, Bool, true, List, [], ◌∷◌, ◌++◌,
  append_assoc, append-nil, length, length-append, drop, drop-nil, max, leb, leb→le, arith,
  max_usize,
}
use wincode.Writer.{
  Writer, slice, slice_unchecked, vec, vec_unchecked, cursor_slice, cursor_vec, vec_pos_unchecked,
  zeros, copy_at,
}

-- Write `src` at `pos`: overwrite, grow, and fill a gap with zeros. The meaning of a write through a
-- cursor.
abbrev pub overwrite : ℕ → List ℕ → List ℕ → List ℕ
overwrite zero [] buf = buf
overwrite zero (b ∷ src) [] = b ∷ src
overwrite zero (b ∷ src) (x ∷ buf) = b ∷ overwrite zero src buf
overwrite (suc pos) src [] = 0 ∷ overwrite pos src []
overwrite (suc pos) src (x ∷ buf) = x ∷ overwrite pos src buf

abbrev pub has_room : ℕ → Writer → Bool
has_room n (slice out room) = leb n room
has_room n (slice_unchecked out room) = leb n room
has_room n (vec buf) = true
has_room n (vec_unchecked buf room) = leb n room
has_room n (cursor_slice buf pos) = leb n (length buf - pos)
has_room n (cursor_vec buf pos) = leb (pos + n) max_usize
has_room n (vec_pos_unchecked buf pos room) = leb n room

-- The writer with `bs` put in.
abbrev pub push : List ℕ → Writer → Writer
push bs (slice out room) = slice (out ++ bs) (room - length bs)
push bs (slice_unchecked out room) = slice_unchecked (out ++ bs) (room - length bs)
push bs (vec buf) = vec (buf ++ bs)
push bs (vec_unchecked buf room) = vec_unchecked (buf ++ bs) (room - length bs)
push bs (cursor_slice buf pos) = cursor_slice (overwrite pos bs buf) (pos + length bs)
push bs (cursor_vec buf pos) = cursor_vec (overwrite pos bs buf) (pos + length bs)
push bs (vec_pos_unchecked buf pos room) =
    vec_pos_unchecked (overwrite pos bs buf) (pos + length bs) (room - length bs)

abbrev pub IsChecked : Writer → Type 0
IsChecked (slice out room) = Unit
IsChecked (slice_unchecked out room) = ⊥
IsChecked (vec buf) = Unit
IsChecked (vec_unchecked buf room) = ⊥
IsChecked (cursor_slice buf pos) = Unit
IsChecked (cursor_vec buf pos) = Unit
IsChecked (vec_pos_unchecked buf pos room) = ⊥

-- Where a cursor stands past the end, an empty write extends a vector and no write does not. The
-- writers below that state:
abbrev pub IsReady : Writer → Type 0
IsReady (cursor_slice buf pos) = pos ≤ length buf
IsReady (cursor_vec buf pos) = (pos ≤ length buf) × (pos ≤ max_usize)
IsReady (vec_pos_unchecked buf pos room) = pos ≤ length buf
IsReady (slice out room) = Unit
IsReady (slice_unchecked out room) = Unit
IsReady (vec buf) = Unit
IsReady (vec_unchecked buf room) = Unit

overwrite-end : (src : List ℕ) → overwrite zero src [] ≡ src
overwrite-end [] = refl
overwrite-end (b ∷ src) = refl

pub overwrite-nil : (pos : ℕ) (buf : List ℕ) → pos ≤ length buf → overwrite pos [] buf ≡ buf
overwrite-nil zero buf h = refl
overwrite-nil (suc pos) [] h = absurd (omega arith)
overwrite-nil (suc pos) (x ∷ buf) h = ap (λ l. x ∷ l) (overwrite-nil pos buf (omega arith))

pub overwrite-overwrite :
    (pos : ℕ) (bs cs buf : List ℕ)
    → overwrite (pos + length bs) cs (overwrite pos bs buf) ≡ overwrite pos (bs ++ cs) buf
overwrite-overwrite zero [] cs buf = let e : zero + length {A = ℕ} [] ≡ zero = omega arith in rw e
overwrite-overwrite zero (b ∷ bs) cs [] =
    let e : zero + length (b ∷ bs) ≡ suc (zero + length bs) = omega arith in
    rw e (
      ap (λ l. b ∷ overwrite (zero + length bs) cs l) (sym (overwrite-end bs))
      ∙ ap (λ l. b ∷ l) (overwrite-overwrite zero bs cs [] ∙ overwrite-end (bs ++ cs)))
overwrite-overwrite zero (b ∷ bs) cs (x ∷ buf) =
    let e : zero + length (b ∷ bs) ≡ suc (zero + length bs) = omega arith in
    rw e (ap (λ l. b ∷ l) (overwrite-overwrite zero bs cs buf))
overwrite-overwrite (suc pos) bs cs [] =
    let e : suc pos + length bs ≡ suc (pos + length bs) = omega arith in
    rw e (ap (λ l. 0 ∷ l) (overwrite-overwrite pos bs cs []))
overwrite-overwrite (suc pos) bs cs (x ∷ buf) =
    let e : suc pos + length bs ≡ suc (pos + length bs) = omega arith in
    rw e (ap (λ l. x ∷ l) (overwrite-overwrite pos bs cs buf))

copy_at-front : (src buf : List ℕ) → src ++ drop (zero + length src) buf ≡ overwrite zero src buf
copy_at-front [] buf = refl
copy_at-front (b ∷ src) [] = rw (drop-nil (zero + length (b ∷ src)), append-nil)
copy_at-front (b ∷ src) (x ∷ buf) =
    let e : zero + length (b ∷ src) ≡ suc (zero + length src) = omega arith in
    rw e (ap (λ l. b ∷ l) (copy_at-front src buf))

-- Copying within the buffer overwrites.
pub copy_at-inside :
    (pos : ℕ) (src buf : List ℕ) → pos ≤ length buf → copy_at buf pos src ≡ overwrite pos src buf
copy_at-inside zero src buf h = copy_at-front src buf
copy_at-inside (suc pos) src [] h = absurd (omega arith)
copy_at-inside (suc pos) src (x ∷ buf) h =
    let e : suc pos + length src ≡ suc (pos + length src) = omega arith in
    rw e (ap (λ l. x ∷ l) (copy_at-inside pos src buf (omega arith)))

overwrite-filled :
    (pos : ℕ) (src buf : List ℕ)
    → overwrite pos src (buf ++ zeros (pos - length buf)) ≡ overwrite pos src buf
overwrite-filled zero src buf = let e : zero - length buf ≡ zero = omega arith in rw (e, append-nil)
overwrite-filled (suc pos) src [] =
    let e : suc pos - zero ≡ suc pos = omega arith in
    let d : pos - zero ≡ pos = omega arith in
    rw e (ap (λ l. 0 ∷ l) (rw d at (overwrite-filled pos src [])))
overwrite-filled (suc pos) src (x ∷ buf) =
    let e : suc pos - length (x ∷ buf) ≡ pos - length buf = omega arith in
    rw e (ap (λ l. x ∷ l) (overwrite-filled pos src buf))

length-zeros : (n : ℕ) → length (zeros n) ≡ n
length-zeros zero = refl
length-zeros (suc n) = ap suc (length-zeros n)

-- Filling the gap below the position of a `Cursor<Vec<u8>>` with zeros and then copying the source
-- there comes to one pass that overwrites, extends, and pads with zeros.
pub copy_at-filled :
    (pos : ℕ) (src buf : List ℕ)
    → copy_at (buf ++ zeros (pos - length buf)) pos src ≡ overwrite pos src buf
copy_at-filled pos src buf =
    copy_at-inside pos src (buf ++ zeros (pos - length buf))
      (omega (arith, length-append buf (zeros (pos - length buf)), length-zeros (pos - length buf)))
    ∙ overwrite-filled pos src buf

pub length-overwrite :
    (pos : ℕ) (src buf : List ℕ)
    → length (overwrite pos src buf) ≡ max (pos + length src) (length buf)
length-overwrite zero [] buf = omega arith
length-overwrite zero (b ∷ src) [] = omega arith
length-overwrite zero (b ∷ src) (x ∷ buf) = omega (arith, length-overwrite zero src buf)
length-overwrite (suc pos) src [] = omega (arith, length-overwrite pos src [])
length-overwrite (suc pos) src (x ∷ buf) = omega (arith, length-overwrite pos src buf)

pub length-copy_at :
    (pos : ℕ) (src buf : List ℕ)
    → length src ≤ length buf - pos
    → pos ≤ length buf
    → length (copy_at buf pos src) ≡ length buf
length-copy_at pos src buf h r =
    rw (copy_at-inside pos src buf r) (omega (arith, length-overwrite pos src buf))

module _ (bs : List ℕ) where
  pub IsReady-push : (w : Writer) → IsReady w → has_room (length bs) w ≡ true → IsReady (push bs w)
  IsReady-push (slice out room) h f = tt
  IsReady-push (slice_unchecked out room) h f = tt
  IsReady-push (vec buf) h f = tt
  IsReady-push (vec_unchecked buf room) h f = tt
  IsReady-push (cursor_slice buf pos) h f = omega (arith, length-overwrite pos bs buf)
  IsReady-push (cursor_vec buf pos) h f = (omega (arith, length-overwrite pos bs buf), leb→le _ _ f)
  IsReady-push (vec_pos_unchecked buf pos room) h f = omega (arith, length-overwrite pos bs buf)

  pub IsChecked-push : (w : Writer) → IsChecked w → IsChecked (push bs w)
  IsChecked-push (slice out room) h = tt
  IsChecked-push (slice_unchecked out room) h = h
  IsChecked-push (vec buf) h = tt
  IsChecked-push (vec_unchecked buf room) h = h
  IsChecked-push (cursor_slice buf pos) h = tt
  IsChecked-push (cursor_vec buf pos) h = tt
  IsChecked-push (vec_pos_unchecked buf pos room) h = h

pub push-nil : (w : Writer) → IsReady w → push [] w ≡ w
push-nil (slice out room) h = rw append-nil (ap (slice out) (omega arith))
push-nil (slice_unchecked out room) h = rw append-nil (ap (slice_unchecked out) (omega arith))
push-nil (vec buf) h = rw append-nil
push-nil (vec_unchecked buf room) h = rw append-nil (ap (vec_unchecked buf) (omega arith))
push-nil (cursor_slice buf pos) h =
    rw (overwrite-nil pos buf h) (ap (cursor_slice buf) (omega arith))
push-nil (cursor_vec buf pos) h = rw (overwrite-nil pos buf h.0) (ap (cursor_vec buf) (omega arith))
push-nil (vec_pos_unchecked buf pos room) h =
    rw (overwrite-nil pos buf h) (ap₂ (vec_pos_unchecked buf) (omega arith) (omega arith))

module _ (bs cs : List ℕ) where
  lengths : length (bs ++ cs) ≡ length bs + length cs
  lengths = length-append bs cs

  pub push-push : (w : Writer) → push cs (push bs w) ≡ push (bs ++ cs) w
  push-push (slice out room) = ap₂ slice (append_assoc out bs cs) (omega (arith, lengths))
  push-push (slice_unchecked out room) =
      ap₂ slice_unchecked (append_assoc out bs cs) (omega (arith, lengths))
  push-push (vec buf) = ap vec (append_assoc buf bs cs)
  push-push (vec_unchecked buf room) =
      ap₂ vec_unchecked (append_assoc buf bs cs) (omega (arith, lengths))
  push-push (cursor_slice buf pos) =
      ap₂ cursor_slice (overwrite-overwrite pos bs cs buf) (omega (arith, lengths))
  push-push (cursor_vec buf pos) =
      ap₂ cursor_vec (overwrite-overwrite pos bs cs buf) (omega (arith, lengths))
  push-push (vec_pos_unchecked buf pos room) =
      ap₂ (λ b (p : ℕ × ℕ). vec_pos_unchecked b p.0 p.1) (overwrite-overwrite pos bs cs buf)
        (λ i. (at_end i, left i))
    where
      at_end : pos + length bs + length cs ≡ pos + length (bs ++ cs)
      at_end = omega (arith, lengths)

      left : room - length bs - length cs ≡ room - length (bs ++ cs)
      left = omega (arith, lengths)

  -- There is room for both exactly when there is room for the first and then for the second.
  pub has_room-append :
      (w : Writer)
      → IsReady w
      → (has_room (length (bs ++ cs)) w ≡ true)
        ↔ ((has_room (length bs) w ≡ true) × (has_room (length cs) (push bs w) ≡ true))
  has_room-append (slice out room) h = ground (arith, lengths)
  has_room-append (slice_unchecked out room) h = ground (arith, lengths)
  has_room-append (vec buf) h = ground arith
  has_room-append (vec_unchecked buf room) h = ground (arith, lengths)
  has_room-append (cursor_slice buf pos) h = ground (arith, lengths, length-overwrite pos bs buf)
  has_room-append (cursor_vec buf pos) h = ground (arith, lengths)
  has_room-append (vec_pos_unchecked buf pos room) h = ground (arith, lengths)
