-- ===== src/TypeMeta.antt =====
-- `TypeMeta` of wincode/src/schema/mod.rs: what is known of a type's encoding at compile time.
pub mod Join
use wincode.Prelude.{ℕ, ◌*◌, Bool, true, false, ◌&&◌, List, [], ◌∷◌, wrapping_add}

-- `static size zero_copy`, or a size that depends on the value.
pub data TypeMeta : Type 0 where
  static : ℕ → Bool → TypeMeta
  dynamic : TypeMeta

unfoldable pub keep_zero_copy : Bool → TypeMeta → TypeMeta
keep_zero_copy keep (static size zero_copy) = static size (zero_copy && keep)
keep_zero_copy keep dynamic = dynamic

-- The loop of `join_types`, over the types that are left. It is a `const fn`, whose `usize` sums wrap
-- around in a release build as those of any function do.
unfoldable pub join_loop : List TypeMeta → ℕ → Bool → TypeMeta
join_loop [] acc_size all_zero_copy = static acc_size all_zero_copy
join_loop (dynamic ∷ types) acc_size all_zero_copy = dynamic
join_loop (static size zero_copy ∷ types) acc_size all_zero_copy =
    join_loop types (wrapping_add acc_size size) (all_zero_copy && zero_copy)

unfoldable pub join_types : List TypeMeta → TypeMeta
unfolding join_loop
join_types types = join_loop types 0 true

-- The metadata of `[T; N]`.
unfoldable pub array_meta : ℕ → TypeMeta → TypeMeta
array_meta n (static size zero_copy) = static (n * size) zero_copy
array_meta n dynamic = dynamic
