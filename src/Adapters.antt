-- ===== src/Adapters.antt =====
-- wincode/src/schema/adapter.rs: schemas that convert, default or discard what another one reads.
pub mod Laws
pub mod Discarding
use wincode.Prelude.{ℕ, zero, suc, false, none, List, [], Outcome, ok, err, fault}
use wincode.Error.{ReadError, WriteError, read_size_limit, IoReadError, unsupported_borrow}
use wincode.Reader.{Reader, Read, pure, ◌>>=◌, as_trusted_for_seq}
use wincode.Writer.{Write}
use wincode.TypeMeta.{TypeMeta, static, dynamic, keep_zero_copy}
use wincode.Config.{Configuration, LengthEncoding}
use wincode.SeqLen.{write_len, write_bytes_needed, read_prealloc_check}
use wincode.Schema.{Schema}

module _ {ℓ} {W T : Type ℓ} (into : T → W) (from : W → T) (wire : Schema W) where
  unfoldable pub from_into_size_by_meta : TypeMeta → T → Outcome WriteError ℕ
  from_into_size_by_meta (static size z) src = ok size
  from_into_size_by_meta dynamic src = wire.size_of (into src)

  -- `FromInto<Wire, Target>`; the size of the target in memory is the compiler's.
  unfoldable pub from_into_schema : ℕ → Schema T
  from_into_schema size_in_memory = record {
    write_meta = keep_zero_copy false wire.write_meta;
    read_meta = keep_zero_copy false wire.read_meta;
    mem_size = size_in_memory;
    to_memory = none;
    from_memory = none;
    size_of = from_into_size_by_meta (keep_zero_copy false wire.write_meta);
    write = λ src. wire.write (into src);
    get = (do w ← wire.get; pure (from w));
  }

module _ {ℓ} {A : Type ℓ} (default : A) (s : Schema A) where
  -- `match T::read(reader, dst)`
  unfoldable pub default_on_empty : Outcome ReadError A → Outcome ReadError A
  default_on_empty (ok a) = ok a
  default_on_empty (err (ReadError.io (read_size_limit needed))) = ok default
  default_on_empty (err e) = err e
  default_on_empty fault = fault

  unfoldable pub default_on_empty_read : Read A
  default_on_empty_read r = let (o, r') = s.get r in (default_on_empty o, r')

  -- `DefaultOnEmptyRead<T>`, whose read announces no size.
  unfoldable pub default_on_empty_schema : Schema A
  default_on_empty_schema = record s { read_meta = dynamic; get = default_on_empty_read }

  unfoldable pub discard_size_by_meta : TypeMeta → A → Outcome WriteError ℕ
  discard_size_by_meta (static size z) src = ok size
  discard_size_by_meta dynamic src = s.size_of default

  -- `Discard<Inner>`
  unfoldable pub discard_schema : Schema A
  discard_schema = record {
    write_meta = keep_zero_copy false s.write_meta;
    read_meta = keep_zero_copy false s.read_meta;
    mem_size = s.mem_size;
    to_memory = none;
    from_memory = none;
    size_of = discard_size_by_meta s.write_meta;
    write = λ src. s.write default;
    get = (do a ← s.get; pure default);
  }

module _ {ℓ} {A : Type ℓ} (s : Schema A) where
  -- `for _ in 0..len { T::get(..)?; }`
  unfoldable pub skip_items : ℕ → Read (List A)
  skip_items zero = pure []
  skip_items (suc len) = do v ← s.get; skip_items len

  unfoldable pub skip_by_meta : TypeMeta → ℕ → Read (List A)
  skip_by_meta (static size z) len = as_trusted_for_seq len size (skip_items len)
  skip_by_meta dynamic len = skip_items len

  module _ (c : Configuration) (l : LengthEncoding) where
    -- `DiscardSeq<T, Len>`
    unfoldable pub discard_seq_schema : ℕ → Schema (List A)
    discard_seq_schema header_size = record {
      write_meta = dynamic;
      read_meta = dynamic;
      mem_size = header_size;
      to_memory = none;
      from_memory = none;
      size_of = λ src. write_bytes_needed c l 0;
      write = λ src. write_len c l 0;
      get = (do len ← read_prealloc_check c l s.mem_size; skip_by_meta s.read_meta len);
    }
