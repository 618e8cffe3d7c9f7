-- ===== src/TagEncoding.antt =====
-- wincode/src/schema/tag_encoding.rs: the discriminants of enums, as `u32` values in an integer type.
pub mod Laws
use wincode.Prelude.{ℕ, Outcome, ok, err, fault, bind, leb, if◌then◌else◌}
use wincode.Error.{WriteError, TagEncodingOverflow, tag_read_error, tag_write_error, unsigned}
use wincode.Reader.{Read, pure, raise, ◌>>=◌}
use wincode.Writer.{Write}
use wincode.IntEncoding.{max_of}
use wincode.Config.{Configuration, IntType}
use wincode.Ints.{size_of_type, int_size_of, int_write, int_read}

-- `TagEncoding::try_from_u32`
unfoldable pub try_from_u32 : IntType → ℕ → Outcome TagEncodingOverflow ℕ
try_from_u32 t value =
    if leb value (max_of (size_of_type t))
    then ok value
    else err (record { encoding = unsigned (size_of_type t) })

-- `TagEncoding::try_into_u32`
unfoldable pub try_into_u32 : IntType → ℕ → Outcome TagEncodingOverflow ℕ
try_into_u32 t x =
    if leb x (max_of 4) then ok x else err (record { encoding = unsigned (size_of_type t) })

abbrev tag_error {ℓ} : {A : Type ℓ} → Outcome TagEncodingOverflow A → Outcome WriteError A
tag_error (ok a) = ok a
tag_error (err e) = err (tag_write_error e)
tag_error fault = fault

abbrev lift_tag : Outcome TagEncodingOverflow ℕ → Read ℕ
lift_tag (ok a) = pure a
lift_tag (err e) = raise (tag_read_error e)
lift_tag fault = λ r. (fault, r)

module _ (c : Configuration) where
  unfoldable pub size_of_from_u32 : ℕ → Outcome WriteError ℕ
  size_of_from_u32 value =
      bind (tag_error (try_from_u32 c.tag_encoding value)) (int_size_of c c.tag_encoding)

  unfoldable pub write_from_u32 : ℕ → Write
  write_from_u32 value w =
      bind (tag_error (try_from_u32 c.tag_encoding value)) (λ tag. int_write c c.tag_encoding tag w)

  unfoldable pub read_tag : Read ℕ
  read_tag = do x ← int_read c c.tag_encoding; lift_tag (try_into_u32 c.tag_encoding x)
