-- ===== src/Elements/Iter.antt =====
-- `write_elem_iter` of wincode/src/schema/mod.rs over an iterator whose reported length is wrong.
use wincode.Prelude.{
  ◌+◌, ◌*◌, ◌≤◌, ◌++◌, max_usize, length-append, wrapping_add, wrapping_mul, ℕ, zero, suc, ◌<◌, ◌≡◌,
  refl, ap, List, [], ◌∷◌, length, take, All, IsErr, bind, inl, arith,
}
use wincode.Writer.{Writer}
use wincode.Writer.Room.{IsReady, IsChecked}
use wincode.Schema.{Schema}
use wincode.Schema.Laws.{Laws}
use wincode.TypeMeta.{TypeMeta, static, dynamic}
use wincode.Config.{Configuration, LengthEncoding}
use wincode.SeqLen.Laws.{IsEncodable, len_bytes, write_len-Writes, write_bytes_needed-length}
use wincode.Writer.Fails.{Fails, Fails-raise, Fails-seq, Fails-window}
use wincode.Elements.{write_items, write_elems, write_iter_by_meta, write_elem_iter}
use wincode.Elements.Bytes.{concat_bytes, length-concat_bytes}

module _ {ℓ} {A : Type ℓ} (s : Schema A) where
  -- Items past the reported length are not written.
  pub write_items-take :
      (len : ℕ) (items : List A) (w : Writer)
      → write_items s len items w ≡ write_items s len (take len items) w
  unfolding write_items
  write_items-take zero items w = refl
  write_items-take (suc len) [] w = refl
  write_items-take (suc len) (v ∷ items) w =
      ap (λ f. bind (s.write v w) f) (λ i w'. write_items-take len items w' i)

module _ {ℓ} {A : Type ℓ} (s : Schema A) {Valid : A → Type 0} {bytes : A → List ℕ}
    (laws : Laws s Valid bytes) where
  -- The loop of an iterator that yields fewer items than it reported.
  write_items-Fails :
      (len : ℕ) (items : List A)
      → length items < len
      → All Valid items
      → Fails (write_items s len items) (concat_bytes bytes items)
  unfolding write_items
  write_items-Fails zero items h all = absurd (omega arith)
  write_items-Fails (suc len) [] h all = Fails-raise _
  write_items-Fails (suc len) (v ∷ items) h (p, all) =
      Fails-seq (laws.writes v p) (write_items-Fails len items (omega arith) all)

  module _ (c : Configuration) (l : LengthEncoding) where
    -- What `needed` comes to where nothing overflows; a type without a static size has no window.
    abbrev pub window_size : TypeMeta → ℕ → ℕ
    window_size (static size z) len = length (len_bytes c l len) + size * len
    window_size dynamic len = 0

    elems-Fails :
        (len : ℕ) (items : List A)
        → length items < len
        → All Valid items
        → IsEncodable l len
        → Fails (write_elems c l s len items) (len_bytes c l len ++ concat_bytes bytes items)
    elems-Fails len items h all fits =
        Fails-seq (write_len-Writes c l len fits) (write_items-Fails len items h all)

    by_meta-Fails :
        (t : TypeMeta)
        → s.write_meta ≡ t
        → (len : ℕ) (items : List A) → length items < len
        → All Valid items
        → IsEncodable l len
        → window_size t len ≤ max_usize
        → Fails
            (write_iter_by_meta c l s t len items)
            (len_bytes c l len ++ concat_bytes bytes items)
    unfolding write_iter_by_meta wrapping_add wrapping_mul
    by_meta-Fails (static size z) e len items h all fits small =
        let fixed = length-concat_bytes bytes Valid size (laws.write_static size z e) items all in
        let product : length items * size ≤ size * len = grind arith in
        rw (write_bytes_needed-length c l len fits, write_iter_by_meta)
          (Fails-window _
            (omega (arith, fixed, length-append (len_bytes c l len) (concat_bytes bytes items)))
            (elems-Fails len items h all fits))
    by_meta-Fails dynamic e len items h all fits small = elems-Fails len items h all fits

    -- Over elements that keep the schema laws: when an iterator yields fewer elements than it
    -- reported, all of them encodable, `write_elem_iter` to a checked writer whose position is not
    -- past its end answers with an error, through the trusted window and on the loop, where the
    -- length encoding can hold the reported length and the window for elements of a static size is
    -- within `usize`.
    pub write_elem_iter-short :
        (len : ℕ) (items : List A) (w : Writer)
        → length items < len
        → All Valid items
        → IsEncodable l len
        → window_size s.write_meta len ≤ max_usize
        → IsReady w
        → IsChecked w
        → IsErr (write_elem_iter c l s len items w)
    write_elem_iter-short len items w h all fits small r checked =
        (by_meta-Fails s.write_meta refl len items h all fits small).at w r (inl checked)
