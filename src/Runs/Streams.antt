-- ===== src/Runs/Streams.antt =====
-- The readers and writers of wincode/src/io at given buffers.
use wincode.Prelude.{ℕ, ◌≡◌, refl, [], ◌∷◌, List, length}
use wincode.Reader.{copy_into_slice, as_trusted_for}
use wincode.Reader.Safe.{SafeStatic, SafeStatic-trusted, SafeStatic-copy}
use wincode.Writer
use wincode.Writer.{write, copy_at, zeros}
use wincode.Writer.Room.{overwrite}
use wincode.Writer.Writes.{Writes, Writes-write, Writes-trusted}

abbrev two_bytes : List ℕ
two_bytes = 7 ∷ 8 ∷ []

SafeStatic-trusted_example : SafeStatic 4 (as_trusted_for 4 (copy_into_slice 4))
SafeStatic-trusted_example = SafeStatic-trusted (SafeStatic-copy 4)

Writes-trusted_example :
    Writes (Writer.as_trusted_for (length two_bytes) (write two_bytes)) two_bytes
Writes-trusted_example = Writes-trusted (Writes-write two_bytes)

overwrite_run : overwrite 3 (7 ∷ 8 ∷ []) (5 ∷ []) ≡ 5 ∷ 0 ∷ 0 ∷ 7 ∷ 8 ∷ []
overwrite_run = refl
