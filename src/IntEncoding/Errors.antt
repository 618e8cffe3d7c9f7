-- ===== src/IntEncoding/Errors.antt =====
-- What the variable-length decoders of wincode/src/schema/int_encoding.rs refuse.
use wincode.Prelude.{ℕ, ◌<◌, ◌≡◌, List, ◌∷◌, err, arith}
use wincode.Error.{ReadError}
use wincode.Reader.{Reader}
use wincode.Reader.View.{view, advance}
use wincode.Reader.Reads.{Reads-byte}
use wincode.IntEncoding.{Endian, UInt, u16, u32, u64, u128, decode_tag, varint_decode}

-- The widest tag that a width accepts.
abbrev pub top_tag : UInt → ℕ
top_tag u16 = 251
top_tag u32 = 252
top_tag u64 = 253
top_tag u128 = 254

tag_refused :
    (e : Endian) (t : UInt) (b : ℕ) (r : Reader)
    → top_tag t < b
    → decode_tag e t b r ≡ (err (ReadError.invalid_tag_encoding b), r)
unfolding decode_tag
tag_refused e u16 b r h = ground arith
tag_refused e u32 b r h = ground arith
tag_refused e u64 b r h = ground arith
tag_refused e u128 b r h = ground arith

-- A first byte above the widest tag of the width is refused with an error that names it, and only
-- that byte is taken.
pub varint_decode-refuses :
    (e : Endian) (t : UInt) (b : ℕ) (r : Reader) (rest : List ℕ)
    → top_tag t < b
    → view r ≡ b ∷ rest
    → varint_decode e t r ≡ (err (ReadError.invalid_tag_encoding b), advance 1 r)
unfolding varint_decode
varint_decode-refuses e t b r rest h v =
    let byte = Reads-byte b in rw (byte.at r rest v) (tag_refused e t b (advance 1 r) h)
