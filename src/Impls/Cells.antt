-- ===== src/Impls/Cells.antt =====
-- `Cell`, `RefCell`, `Mutex` and `RwLock`, and `Cow`, of wincode/src/schema/impls.rs.
pub mod Laws
use wincode.Prelude.{ℕ, false, Option, none, some, Outcome, err, if◌then◌else◌}
use wincode.Error.{WriteError, Message, already_borrowed, poisoned_mutex, poisoned_rw_lock, backing}
use wincode.Reader.{Read, pure, ◌>>=◌, supports_borrow}
use wincode.Writer.{Write, refuse}
use wincode.TypeMeta.{dynamic, keep_zero_copy}
use wincode.Schema.{Schema}

-- A container whose value may be out of reach: `try_borrow`, `lock` and `read` of the standard
-- library, with the message of their failure, and `new`.
pub record Lock {ℓ} (X A : Type ℓ) : Type ℓ where
  pub message : Message
  pub access : X → Option A
  pub make : A → X

module _ {ℓ} {X A : Type ℓ} (lock : Lock X A) (s : Schema A) where
  unfoldable pub locked_size_of : Option A → Outcome WriteError ℕ
  locked_size_of none = err (WriteError.custom lock.message)
  locked_size_of (some val) = s.size_of val

  unfoldable pub locked_write : Option A → Write
  locked_write none = refuse (WriteError.custom lock.message)
  locked_write (some val) = s.write val

  -- `RefCell<T>`, `Mutex<T>` and `RwLock<T>`.
  unfoldable pub locked_schema : ℕ → Schema X
  locked_schema size_in_memory = record {
    write_meta = keep_zero_copy false s.write_meta;
    read_meta = keep_zero_copy false s.read_meta;
    mem_size = size_in_memory;
    to_memory = none;
    from_memory = none;
    size_of = λ src. locked_size_of (lock.access src);
    write = λ src. locked_write (lock.access src);
    get = (do a ← s.get; pure (lock.make a));
  }

-- `Cell<T>`, whose value is always in reach; in memory it is the value itself.
unfoldable pub cell_schema {ℓ} : {A : Type ℓ} → Schema A → Schema A
cell_schema s = record {
  write_meta = keep_zero_copy false s.write_meta;
  read_meta = s.read_meta;
  mem_size = s.mem_size;
  to_memory = none;
  from_memory = s.from_memory;
  size_of = s.size_of;
  write = s.write;
  get = s.get;
}

module _ {ℓ} {A : Type ℓ} (ref_get : Read A) (owned : Schema A) where
  -- The read of `Cow<T>`: `&T` where the reader lends its backing memory, else `T::Owned`.
  unfoldable pub cow_get : Read A
  cow_get r = if supports_borrow backing r then ref_get r else owned.get r
