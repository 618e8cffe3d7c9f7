-- ===== src/Elements/Bytes.antt =====
-- The format of a sequence of elements in wincode/src/schema: their encodings, one after the other.
use wincode.Prelude.{
  ℕ, ◌*◌, ◌≡◌, refl, sym, ap, ap₂, ◌∙◌, List, [], ◌∷◌, ◌++◌, All, length, length-append,
  take-append, drop-append, take, drop, arith,
}
use wincode.Elements.{slice_to_memory, slice_from_memory}

module _ {ℓ} {A : Type ℓ} (bytes : A → List ℕ) where
  abbrev pub concat_bytes : List A → List ℕ
  concat_bytes [] = []
  concat_bytes (v ∷ vs) = bytes v ++ concat_bytes vs

module _ {ℓ} {A : Type ℓ} (bytes : A → List ℕ) (Valid : A → Type 0) where
  pub length-concat_bytes :
      (size : ℕ)
      → ((a : A) → Valid a → length (bytes a) ≡ size)
      → (vs : List A) → All Valid vs
      → length (concat_bytes bytes vs) ≡ length vs * size
  length-concat_bytes size h [] all = omega arith
  length-concat_bytes size h (v ∷ vs) (p, all) = omega (
    arith,
    h v p,
    length-append (bytes v) (concat_bytes bytes vs),
    length-concat_bytes size h vs all,
  )

  module _ (m : A → List ℕ) where
    pub slice_to_memory-concat :
        ((a : A) → Valid a → m a ≡ bytes a)
        → (vs : List A) → All Valid vs
        → slice_to_memory m vs ≡ concat_bytes bytes vs
    unfolding slice_to_memory
    slice_to_memory-concat h [] all = refl
    slice_to_memory-concat h (v ∷ vs) (p, all) =
        ap₂ (λ x y. x ++ y) (h v p) (slice_to_memory-concat h vs all)

  module _ (m : List ℕ → A) where
    pub slice_from_memory-concat :
        (size : ℕ)
        → ((a : A) → Valid a → length (bytes a) ≡ size)
        → ((a : A) → Valid a → m (bytes a) ≡ a)
        → (vs : List A) → All Valid vs
        → slice_from_memory m size (length vs) (concat_bytes bytes vs) ≡ vs
    unfolding slice_from_memory
    slice_from_memory-concat size h k [] all = refl
    slice_from_memory-concat size h k (v ∷ vs) (p, all) =
        let first : take size (bytes v ++ concat_bytes bytes vs) ≡ bytes v =
          rw (sym (h v p)) (take-append (bytes v) (concat_bytes bytes vs)) in
        let rest : drop size (bytes v ++ concat_bytes bytes vs) ≡ concat_bytes bytes vs =
          rw (sym (h v p)) (drop-append (bytes v) (concat_bytes bytes vs)) in
        ap₂ (λ x y. x ∷ y) (ap m first ∙ k v p)
          (ap (slice_from_memory m size (length vs)) rest
            ∙ slice_from_memory-concat size h k vs all)
