-- ===== src/TypeMeta/Join.antt =====
-- `TypeMeta::join_types` of wincode/src/schema/mod.rs against its description.
use wincode.Prelude.{
  wrapping_add, ◌%◌, ◌^◌, ◌<◌, ltb→lt, refl, ℕ, ◌+◌, ◌≡◌, ap, ap₂, ◌∙◌, Bool, true, false, ◌&&◌,
  List, [], ◌∷◌, ◌↔◌, All, arith,
}
use wincode.TypeMeta.{TypeMeta, static, dynamic, join_loop, join_types}

abbrev pub IsStatic : TypeMeta → Type 0
IsStatic (static size zero_copy) = Unit
IsStatic dynamic = ⊥

abbrev size_or_zero : TypeMeta → ℕ
size_or_zero (static size zero_copy) = size
size_or_zero dynamic = 0

abbrev zero_copy_or_false : TypeMeta → Bool
zero_copy_or_false (static size zero_copy) = zero_copy
zero_copy_or_false dynamic = false

abbrev pub sum_sizes : List TypeMeta → ℕ
sum_sizes [] = 0
sum_sizes (m ∷ ms) = size_or_zero m + sum_sizes ms

abbrev pub all_zero_copy : List TypeMeta → Bool
all_zero_copy [] = true
all_zero_copy (m ∷ ms) = zero_copy_or_false m && all_zero_copy ms

and_assoc : (a b c : Bool) → ((a && b) && c) ≡ (a && (b && c))
and_assoc a b c = ground arith

join_loop-static :
    (types : List TypeMeta) (size : ℕ) (z : Bool)
    → size < 2 ^ 64
    → All IsStatic types
    → join_loop types size z ≡ static ((size + sum_sizes types) % 2 ^ 64) (z && all_zero_copy types)
unfolding join_loop wrapping_add
join_loop-static [] size z small h = ap₂ static (omega arith) (ground arith)
join_loop-static (static n c ∷ types) size z small (_, h) =
    join_loop-static types ((size + n) % 2 ^ 64) (z && c) (omega arith) h
    ∙ ap₂ static (omega arith) (and_assoc z c (all_zero_copy types))
join_loop-static (dynamic ∷ types) size z small (h, _) = absurd h

join_loop-IsStatic :
    (types : List TypeMeta) (size : ℕ) (z : Bool)
    → IsStatic (join_loop types size z)
    → All IsStatic types
unfolding join_loop
join_loop-IsStatic [] size z h = tt
join_loop-IsStatic (static n c ∷ types) size z h =
    (tt, join_loop-IsStatic types (wrapping_add size n) (z && c) h)
join_loop-IsStatic (dynamic ∷ types) size z h = absurd h

-- The join of a list of types is static exactly when every type is; then its size is the sum of the
-- sizes modulo 2^64, and it is zero-copy exactly when every type is.
pub join_types_lem :
    (types : List TypeMeta)
    → (IsStatic (join_types types) ↔ All IsStatic types)
      × (All IsStatic types
          → join_types types ≡ static (sum_sizes types % 2 ^ 64) (all_zero_copy types))
unfolding join_types
join_types_lem types = ((join_loop-IsStatic types 0 true, λ h. rw (joined h) tt), joined)
  where
    joined :
        All IsStatic types
        → join_loop types 0 true ≡ static (sum_sizes types % 2 ^ 64) (all_zero_copy types)
    joined h =
        join_loop-static types 0 true (ltb→lt _ _ refl) h
        ∙ ap (λ n. static n (all_zero_copy types)) (omega arith)
