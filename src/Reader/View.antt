-- ===== src/Reader/View.antt =====
-- What a reader of wincode/src/io still has to give, and how it advances.
use wincode.Prelude.{
  ℕ, ◌+◌, ◌-◌, ◌≤◌, ◌<◌, min, ◌≡◌, refl, sym, ap, ap₂, ◌∙◌, inl, inr, none, some, List, length,
  take, drop, length-take, length-drop, drop-drop, drop_all, drop-take, take-take_le, le→leb,
  lt→leb_false, leb-cases, ok, err, true, arith,
}
use wincode.Error.{call_site, size_limit_read}
use wincode.Reader.{
  supports_borrow, Reader, slice, slice_mut, slice_unchecked, slice_mut_unchecked,
  slice_scoped_unchecked, cursor, limit, advance_slice_checked, advance_slice_unchecked,
  advance_cursor_checked, copy_slice, copy_slice_mut, copy_unchecked, copy_cursor, reserve_limit,
  limited, copy_into_slice,
}

-- The bytes that are left; a `LimitReader` has no more than what remains of its limit.
abbrev pub view : Reader → List ℕ
view (slice buf) = buf
view (slice_mut buf) = buf
view (slice_unchecked buf) = buf
view (slice_mut_unchecked buf) = buf
view (slice_scoped_unchecked buf) = buf
view (cursor buf pos) = drop (min pos (length buf)) buf
view (limit inner remaining) = take remaining (view inner)

-- The reader after `n` bytes.
abbrev pub advance : ℕ → Reader → Reader
advance n (slice buf) = slice (drop n buf)
advance n (slice_mut buf) = slice_mut (drop n buf)
advance n (slice_unchecked buf) = slice_unchecked (drop n buf)
advance n (slice_mut_unchecked buf) = slice_mut_unchecked (drop n buf)
advance n (slice_scoped_unchecked buf) = slice_scoped_unchecked (drop n buf)
advance n (cursor buf pos) = cursor buf (pos + n)
advance n (limit inner remaining) = limit (advance n inner) (remaining - n)

-- The readers that check their bounds; only the trusted windows do not.
abbrev pub IsChecked : Reader → Type 0
IsChecked (slice buf) = Unit
IsChecked (slice_mut buf) = Unit
IsChecked (slice_unchecked buf) = ⊥
IsChecked (slice_mut_unchecked buf) = ⊥
IsChecked (slice_scoped_unchecked buf) = ⊥
IsChecked (cursor buf pos) = Unit
IsChecked (limit inner remaining) = IsChecked inner

pub IsChecked-advance : (n : ℕ) (r : Reader) → IsChecked r → IsChecked (advance n r)
IsChecked-advance n (slice buf) h = h
IsChecked-advance n (slice_mut buf) h = h
IsChecked-advance n (slice_unchecked buf) h = h
IsChecked-advance n (slice_mut_unchecked buf) h = h
IsChecked-advance n (slice_scoped_unchecked buf) h = h
IsChecked-advance n (cursor buf pos) h = h
IsChecked-advance n (limit inner remaining) h = IsChecked-advance n inner h

drop-cursor :
    (n pos : ℕ) (buf : List ℕ)
    → drop (min (pos + n) (length buf)) buf ≡ drop n (drop (min pos (length buf)) buf)
drop-cursor n pos buf = elim (leb-cases (pos + n) (length buf)) [
  | inl (h, _) ↦ sym (drop-drop _ n buf ∙ ap (λ k. drop k buf) (fits h))
  | inr (h, _) ↦
      drop_all _ buf (omega arith)
      ∙ sym (drop-drop _ n buf ∙ drop_all (min pos (length buf) + n) buf (omega arith))
]
  where
    fits : pos + n ≤ length buf → min pos (length buf) + n ≡ min (pos + n) (length buf)
    fits h = omega arith

pub view-advance : (n : ℕ) (r : Reader) → view (advance n r) ≡ drop n (view r)
view-advance n (slice buf) = refl
view-advance n (slice_mut buf) = refl
view-advance n (slice_unchecked buf) = refl
view-advance n (slice_mut_unchecked buf) = refl
view-advance n (slice_scoped_unchecked buf) = refl
view-advance n (cursor buf pos) = drop-cursor n pos buf
view-advance n (limit inner remaining) =
    ap (take (remaining - n)) (view-advance n inner) ∙ sym (drop-take n remaining (view inner))

pub length-view-advance : (n : ℕ) (r : Reader) → length (view (advance n r)) ≡ length (view r) - n
length-view-advance n r = rw (view-advance n r) (length-drop n (view r))

pub advance-zero : (r : Reader) → advance 0 r ≡ r
advance-zero (slice buf) = refl
advance-zero (slice_mut buf) = refl
advance-zero (slice_unchecked buf) = refl
advance-zero (slice_mut_unchecked buf) = refl
advance-zero (slice_scoped_unchecked buf) = refl
advance-zero (cursor buf pos) = ap (cursor buf) (omega arith)
advance-zero (limit inner remaining) = ap₂ limit (advance-zero inner) (omega arith)

pub advance-advance : (m n : ℕ) (r : Reader) → advance n (advance m r) ≡ advance (m + n) r
advance-advance m n (slice buf) = ap slice (drop-drop m n buf)
advance-advance m n (slice_mut buf) = ap slice_mut (drop-drop m n buf)
advance-advance m n (slice_unchecked buf) = ap slice_unchecked (drop-drop m n buf)
advance-advance m n (slice_mut_unchecked buf) = ap slice_mut_unchecked (drop-drop m n buf)
advance-advance m n (slice_scoped_unchecked buf) = ap slice_scoped_unchecked (drop-drop m n buf)
advance-advance m n (cursor buf pos) = ap (cursor buf) (omega arith)
advance-advance m n (limit inner remaining) = ap₂ limit (advance-advance m n inner) (omega arith)

pub slice_fits :
    (buf : List ℕ) (n : ℕ)
    → n ≤ length buf
    → advance_slice_checked buf n ≡ some (take n buf, drop n buf)
unfolding advance_slice_checked
slice_fits buf n h = rw (le→leb _ _ h)

pub slice_short : (buf : List ℕ) (n : ℕ) → length buf < n → advance_slice_checked buf n ≡ none
unfolding advance_slice_checked
slice_short buf n h = rw (lt→leb_false _ _ h)

pub cursor_fits :
    (buf : List ℕ) (pos n : ℕ)
    → n ≤ length (view (cursor buf pos))
    → advance_cursor_checked buf pos n ≡ some (take n (view (cursor buf pos)), pos + n)
unfolding advance_cursor_checked
cursor_fits buf pos n h = rw (le→leb _ _ h)

pub cursor_short :
    (buf : List ℕ) (pos n : ℕ)
    → length (view (cursor buf pos)) < n
    → advance_cursor_checked buf pos n ≡ none
unfolding advance_cursor_checked
cursor_short buf pos n h = rw (lt→leb_false _ _ h)

unchecked_fits :
    (buf : List ℕ) (n : ℕ)
    → n ≤ length buf
    → advance_slice_unchecked buf n ≡ (ok (take n buf), drop n buf)
unfolding advance_slice_unchecked
unchecked_fits buf n h = rw (le→leb _ _ h)

pub limit_fits :
    (n remaining : ℕ) → n ≤ remaining → reserve_limit remaining n ≡ some (remaining - n)
unfolding reserve_limit
limit_fits n remaining h = rw (le→leb _ _ h)

pub limit_short : (n remaining : ℕ) → remaining < n → reserve_limit remaining n ≡ none
unfolding reserve_limit
limit_short n remaining h = rw (lt→leb_false _ _ h)

-- For a number of bytes within the reader's, `copy_into_slice` of every reader copies the next
-- bytes and advances past them; on a cursor from its position, and through a limit within what
-- remains.
pub copy-in_bounds :
    (n : ℕ) (r : Reader)
    → n ≤ length (view r)
    → copy_into_slice n r ≡ (ok (take n (view r)), advance n r)
unfolding copy_into_slice copy_slice copy_slice_mut copy_unchecked copy_cursor limited
copy-in_bounds n (slice buf) h = rw (slice_fits buf n h, copy_slice)
copy-in_bounds n (slice_mut buf) h = rw (slice_fits buf n h, copy_slice_mut)
copy-in_bounds n (slice_unchecked buf) h = rw (unchecked_fits buf n h, copy_unchecked)
copy-in_bounds n (slice_mut_unchecked buf) h = rw (unchecked_fits buf n h, copy_unchecked)
copy-in_bounds n (slice_scoped_unchecked buf) h = rw (unchecked_fits buf n h, copy_unchecked)
copy-in_bounds n (cursor buf pos) h = rw (cursor_fits buf pos n h, copy_cursor)
copy-in_bounds n (limit inner remaining) h =
    let short = length-take remaining (view inner) in
    rw (limit_fits n remaining (omega arith), copy-in_bounds n inner (omega arith), limited)
      (ap (λ bs. (ok bs, limit (advance n inner) (remaining - n)))
        (sym (take-take_le n remaining (view inner) (omega arith))))

-- For a number of bytes beyond the reader's, `copy_into_slice` of every checked reader answers with
-- the error that names that number.
pub copy-out_of_bounds :
    (n : ℕ) (r : Reader)
    → IsChecked r
    → length (view r) < n
    → (copy_into_slice n r).0 ≡ err (size_limit_read n)
unfolding copy_into_slice copy_slice copy_slice_mut copy_cursor limited
copy-out_of_bounds n (slice buf) c h = rw (slice_short buf n h, copy_slice)
copy-out_of_bounds n (slice_mut buf) c h = rw (slice_short buf n h, copy_slice_mut)
copy-out_of_bounds n (slice_unchecked buf) c h = absurd c
copy-out_of_bounds n (slice_mut_unchecked buf) c h = absurd c
copy-out_of_bounds n (slice_scoped_unchecked buf) c h = absurd c
copy-out_of_bounds n (cursor buf pos) c h = rw (cursor_short buf pos n h, copy_cursor)
copy-out_of_bounds n (limit inner remaining) c h =
    let short = length-take remaining (view inner) in
    elim (leb-cases n remaining) [
      | inl (le, _) ↦
          rw (limit_fits n remaining le, limited) (copy-out_of_bounds n inner c (omega arith))
      | inr (gt, _) ↦ rw (limit_short n remaining gt, limited)
    ]

-- Every reader over memory lends its bytes for the call.
pub supports_borrow-call_site : (r : Reader) → supports_borrow call_site r ≡ true
unfolding supports_borrow
supports_borrow-call_site r = refl
