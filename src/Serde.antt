-- ===== src/Serde.antt =====
-- wincode/src/config/serde.rs, and wincode/src/serde.rs at the default configuration: the entry
-- points. `with_capacity` is the capacity that std's `Vec::with_capacity` reserves for a request.
pub mod RoundTrip
pub mod Limits
pub mod Defaults
use wincode.Prelude.{
  ℕ, ◌-◌, true, false, min, Option, none, some, List, [], ◌∷◌, length, take, drop, leb,
  if◌then◌else◌, Outcome, ok, err, fault, bind,
}
use wincode.Error.{ReadError, WriteError, trailing_bytes}
use wincode.Reader.{Reader, Read, slice, slice_mut, limit}
use wincode.Reader.View.{view}
use wincode.Writer
use wincode.Writer.{Write, ◌▸◌, finish}
use wincode.Config.{Configuration, deserialization_size_limit}
use wincode.Schema.{Schema}

module _ {ℓ} {A : Type ℓ} (s : Schema A) where
  unfoldable pub serialize_into : A → Write
  serialize_into src = s.write src ▸ finish

  unfoldable pub serialized_size : A → Outcome WriteError ℕ
  serialized_size src = s.size_of src

-- `Vec::set_len` over the bytes that are initialised; past them it is undefined behaviour.
unfoldable pub set_len : ℕ → List ℕ → Outcome WriteError (List ℕ)
set_len len buffer = if leb len (length buffer) then ok (take len buffer) else fault

-- `buffer.set_len(capacity - writer.len())`; a difference below zero wraps around.
unfoldable pub close_buffer : ℕ → Writer.Writer → Outcome WriteError (List ℕ)
close_buffer capacity (Writer.slice out room) =
    if leb room capacity then set_len (capacity - room) out else fault
close_buffer capacity w = fault

module _ {ℓ} {A : Type ℓ} (with_capacity : ℕ → ℕ) (s : Schema A) where
  -- `spare_capacity_mut` is all that was reserved.
  unfoldable pub serialize : A → Outcome WriteError (List ℕ)
  serialize src = bind (s.size_of src) (λ capacity.
      bind (serialize_into s src (Writer.slice [] (with_capacity capacity)))
        (close_buffer capacity))

-- `&src[..len]`, which panics where there are fewer bytes.
unfoldable pub slice_to : ℕ → List ℕ → Outcome ReadError (List ℕ)
slice_to len src = if leb len (length src) then ok (take len src) else fault

-- `&src[consumed..]`, which panics where there are fewer bytes.
unfoldable pub slice_from : ℕ → List ℕ → Outcome ReadError (List ℕ)
slice_from consumed src = if leb consumed (length src) then ok (drop consumed src) else fault

-- `&src[..limit.min(src.len())]`
unfoldable pub clamp : ℕ → List ℕ → Outcome ReadError (List ℕ)
clamp most src = slice_to (min most (length src)) src

-- The reader behind a `LimitReader`.
abbrev pub into_inner {ℓ} :
    {A : Type ℓ} → Outcome ReadError A × Reader → Outcome ReadError A × Reader
into_inner (o, limit inner remaining) = (o, inner)
into_inner p = p

-- `maybe_size_limit!` at its three kinds of source.
module _ {ℓ} {A : Type ℓ} where
  unfoldable pub limit_slice : Option ℕ → Read A → List ℕ → Outcome ReadError A
  limit_slice (some most) body src = bind (clamp most src) (λ limited. (body (slice limited)).0)
  limit_slice none body src = (body (slice src)).0

  unfoldable pub limit_slice_mut : Option ℕ → Read A → List ℕ → Outcome ReadError A
  limit_slice_mut (some most) body src =
      bind (clamp most src) (λ limited. (body (slice_mut limited)).0)
  limit_slice_mut none body src = (body (slice_mut src)).0

  unfoldable pub limit_generic : Option ℕ → Read A → Read A
  limit_generic (some n) body src = into_inner (body (limit src n))
  limit_generic none body src = body src

  -- The steps of `deserialize_exact`: what is left after the value must be empty.
  unfoldable pub no_trailing : A → List ℕ → Outcome ReadError A
  no_trailing value [] = ok value
  no_trailing value (b ∷ rest) = err trailing_bytes

  unfoldable pub exact_limited :
      List ℕ → List ℕ → Outcome ReadError A × Reader → Outcome ReadError A
  exact_limited src limited (o, r) = bind o (λ value.
      bind (slice_from (length limited - length (view r)) src) (λ rest. no_trailing value rest))

  unfoldable pub exact_whole : Outcome ReadError A × Reader → Outcome ReadError A
  exact_whole (o, r) = bind o (λ value. no_trailing value (view r))

  unfoldable pub exact : Option ℕ → Read A → List ℕ → Outcome ReadError A
  exact (some most) get src =
      bind (clamp most src) (λ limited. exact_limited src limited (get (slice limited)))
  exact none get src = exact_whole (get (slice src))

module _ {ℓ} {A : Type ℓ} (c : Configuration) where
  unfoldable pub deserialize : Schema A → List ℕ → Outcome ReadError A
  deserialize s src = limit_slice (deserialization_size_limit c) s.get src

  unfoldable pub deserialize_mut : Schema A → List ℕ → Outcome ReadError A
  deserialize_mut s src = limit_slice_mut (deserialization_size_limit c) s.get src

  unfoldable pub deserialize_from : Schema A → Read A
  deserialize_from s src = limit_generic (deserialization_size_limit c) s.get src

  unfoldable pub deserialize_exact : Schema A → List ℕ → Outcome ReadError A
  deserialize_exact s src = exact (deserialization_size_limit c) s.get src

  -- `get_with_context(ctx)` is the read of a type that already has its context.
  unfoldable pub deserialize_with_context {κ} :
      {Ctx : Type κ} → (Ctx → Read A) → Ctx → List ℕ → Outcome ReadError A
  deserialize_with_context get_with_context ctx src =
      limit_slice (deserialization_size_limit c) (get_with_context ctx) src
