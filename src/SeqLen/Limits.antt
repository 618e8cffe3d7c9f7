-- ===== src/SeqLen/Limits.antt =====
-- The limits of wincode/src/len.rs: which lengths `prealloc_check` lets pass, and what a collection
-- of unique keys reserves.
use native.Mathlib.Nat.{pow-le-pow_right}
use wincode.Prelude.{
  ℕ, ◌*◌, ◌^◌, ◌≤◌, ◌≡◌, ◌↔◌, inl, inr, min, max, none, some, leb-cases, max_usize, checked_mul,
  arith,
}
use wincode.Config.{Configuration, LengthEncoding}
use wincode.SeqLen.{
  to_opt_limit_with_config, limit_override, check_limit, prealloc_check, unique_key_capacity,
}

check_limit-none :
    (len size limit : ℕ)
    → limit ≤ max_usize
    → check_limit len size limit ≡ none ↔ len * size ≤ limit
unfolding check_limit checked_mul
check_limit-none len size limit h = ground arith

-- Under a preallocation limit, which is a `usize`, `prealloc_check` lets a length pass exactly when
-- that many elements, each counted with its size in memory and with one byte at least, are within
-- the limit.
pub prealloc_check-none :
    (c : Configuration) (l : LengthEncoding) (limit mem_size len : ℕ)
    → to_opt_limit_with_config c (limit_override l) ≡ some limit
    → limit ≤ max_usize
    → prealloc_check c l mem_size len ≡ none ↔ len * max mem_size 1 ≤ limit
unfolding prealloc_check
prealloc_check-none c l limit mem_size len e h =
    rw (e, prealloc_check) (check_limit-none len (max mem_size 1) limit h)

-- For a length that is a `usize`, the capacity of a collection of unique keys is the smaller of the
-- length and the number of values that a key of that size can take.
pub unique_key_capacity_lem :
    (size_of_key len : ℕ)
    → len ≤ max_usize
    → unique_key_capacity size_of_key len ≡ min len (2 ^ (size_of_key * 8))
unfolding unique_key_capacity
unique_key_capacity_lem size len h = elim (leb-cases 64 (size * 8)) [
  | inr (small, _) ↦ ground arith
  | inl (wide, _) ↦
      let many : 2 ^ 64 ≤ 2 ^ (size * 8) = pow-le-pow_right (omega arith) wide in ground arith
]
