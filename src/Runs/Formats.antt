-- ===== src/Runs/Formats.antt =====
-- wincode/src/schema/int_encoding.rs, tag_encoding.rs and len.rs at given values.
use wincode.Prelude.{◌*◌, ◌≤◌, ◌≡◌, refl, ◌↔◌, max, some, none, [], ◌∷◌, length, ok, ltb→lt, leb→le}
use wincode.Reader.Reads.{Reads}
use wincode.Writer.Writes.{Writes}
use wincode.IntEncoding.{
  little, big, u32, u64, varint_decode, varint_encode, varint_size_of, zigzag, unzigzag, to_bytes,
  to_le_bytes,
}
use wincode.IntEncoding.Format.{varint_bytes, varint_encode-Writes, varint_size_of-length}
use wincode.IntEncoding.RoundTrip.{varint_decode-Reads}
use wincode.IntEncoding.Signed.{InRange, zigzag-unzigzag}
use wincode.Config.{default_config, u8, wide, use_int_len}
use wincode.Ints.Laws.{bytes_of}
use wincode.SeqLen.{to_opt_limit_with_config, limit_override, prealloc_check, from_usize}
use wincode.SeqLen.Limits.{prealloc_check-none}
use wincode.TagEncoding.{size_of_from_u32, write_from_u32, read_tag}
use wincode.TagEncoding.Laws.{tag-round_trip}

varint_decode-Reads_example : Reads (varint_decode big u64) (varint_bytes big 70000) 70000
varint_decode-Reads_example = varint_decode-Reads big u64 70000 (ltb→lt _ _ refl)

varint_encode-Writes_example : Writes (varint_encode little u32 300) (varint_bytes little 300)
varint_encode-Writes_example = varint_encode-Writes little u32 300 (ltb→lt _ _ refl)

bytes_of_300 : varint_bytes little 300 ≡ 251 ∷ 44 ∷ 1 ∷ []
unfolding varint_bytes to_bytes to_le_bytes
bytes_of_300 = refl

varint_size_of-length_example : varint_size_of u32 300 ≡ length (varint_bytes little 300)
varint_size_of-length_example = varint_size_of-length little u32 300 (ltb→lt _ _ refl)

zigzag-unzigzag_example : InRange 2 (unzigzag 2 501) × (zigzag 2 (unzigzag 2 501) ≡ 501)
zigzag-unzigzag_example = zigzag-unzigzag 1 501 (ltb→lt _ _ refl)

eight_limit : to_opt_limit_with_config default_config (limit_override (use_int_len u8 8)) ≡ some 8
unfolding to_opt_limit_with_config limit_override from_usize
eight_limit = refl

prealloc_check-none_example :
    prealloc_check default_config (use_int_len u8 8) 0 9 ≡ none ↔ 9 * max 0 1 ≤ 8
prealloc_check-none_example =
    prealloc_check-none default_config (use_int_len u8 8) 8 0 9 eight_limit (leb→le _ _ refl)

tag-round_trip_example :
    (size_of_from_u32 default_config 7 ≡ ok (length (bytes_of default_config (wide u32) 7)))
    × Writes (write_from_u32 default_config 7) (bytes_of default_config (wide u32) 7)
    × Reads (read_tag default_config) (bytes_of default_config (wide u32) 7) 7
tag-round_trip_example = tag-round_trip default_config 7 (ltb→lt _ _ refl, ltb→lt _ _ refl)
