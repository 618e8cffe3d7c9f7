-- ===== src/Containers/Guard.antt =====
-- `SliceDropGuard` of wincode/src/schema/containers.rs: `decode_into_slice_t` on a loop path, with the
-- elements that its guard drops when a read fails.
pub mod Laws
use wincode.Prelude.{
  ℕ, zero, suc, ◌+◌, Bool, true, false, List, [], ◌∷◌, ◌++◌, length, take, Outcome, ok, err, fault,
  Option, none, some, leb, if◌then◌else◌,
}
use wincode.Error.{ReadError}
use wincode.Reader.{Reader}
use wincode.Schema.{Schema}

-- The guard: the elements in the slots, of which it would drop the first `initialized_len`.
pub record SliceDropGuard {ℓ} (A : Type ℓ) : Type ℓ where
  pub slots : List A
  pub initialized_len : ℕ

module _ {ℓ} {A : Type ℓ} (needs_drop : Bool) where
  abbrev pub guard_new : SliceDropGuard A
  guard_new = record { slots = []; initialized_len = 0 }

  -- A read has written the next slot.
  unfoldable pub fill_slot : A → SliceDropGuard A → SliceDropGuard A
  fill_slot v g = record g { slots = g.slots ++ (v ∷ []) }

  unfoldable pub inc_len : SliceDropGuard A → SliceDropGuard A
  inc_len g = elim needs_drop [
    | true ↦ record g { initialized_len = g.initialized_len + 1 }
    | false ↦ g
  ]

  -- `Drop for SliceDropGuard`: the elements that are dropped. To drop a slot that no read has
  -- filled is undefined behaviour, and none.
  unfoldable pub drop_guard : SliceDropGuard A → Option (List A)
  drop_guard g = elim needs_drop [
    | true ↦
        if leb g.initialized_len (length g.slots)
        then some (take g.initialized_len g.slots)
        else none
    | false ↦ some []
  ]

-- How a decode ends: its answer, the reader, and what the guard dropped on the way out.
pub record Decoded {ℓ} (A : Type ℓ) : Type ℓ where
  pub answer : Outcome ReadError (List A)
  pub reader : Reader
  pub dropped : List A

-- A read that fails: the guard is dropped on the way out.
abbrev pub unwind {ℓ} : {A : Type ℓ} → ReadError → Reader → Option (List A) → Decoded A
unwind e r (some vs) = record { answer = err e; reader = r; dropped = vs }
unwind e r none = record { answer = fault; reader = r; dropped = [] }

module _ {ℓ} {A : Type ℓ} (needs_drop : Bool) (s : Schema A) where
  -- The loop over the slots that are left: `T::read(reader.by_ref(), slot)?; guard.inc_len();`, and
  -- `mem::forget(guard)` at its end.
  unfoldable pub guarded_items : ℕ → SliceDropGuard A → Reader → Decoded A
  guarded_items zero g r = record { answer = ok g.slots; reader = r; dropped = [] }
  guarded_items (suc len) g r = elim (s.get r).0 [
    | ok v ↦ guarded_items len (inc_len needs_drop (fill_slot needs_drop v g)) (s.get r).1
    | err e ↦ unwind e (s.get r).1 (drop_guard needs_drop g)
    | fault ↦ record { answer = fault; reader = (s.get r).1; dropped = [] }
  ]

  abbrev pub guarded_decode : ℕ → Reader → Decoded A
  guarded_decode len r = guarded_items len (guard_new needs_drop) r
