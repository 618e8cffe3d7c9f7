-- ===== src/Impls/Strings/Laws.antt =====
-- The laws of `String` of wincode/src/schema/impls.rs as a schema.
use wincode.Prelude.{ℕ, ◌≤◌, ◌≡◌, Bool, true, none, List, ◌++◌, length, max_usize}
use wincode.Reader.{Reader}
use wincode.Reader.Reads.{Reads}
use wincode.Writer.Writes.{Writes}
use wincode.Config.{Configuration}
use wincode.SeqLen.{prealloc_check}
use wincode.SeqLen.Laws.{len_bytes, IsEncodable}
use wincode.Schema.Laws.{Laws}

module _ (is_utf8 : List ℕ → Bool) where
  module _ (c : Configuration) where
    abbrev pub string_bytes : List ℕ → List ℕ
    string_bytes s = len_bytes c c.length_encoding (length s) ++ s

    -- Well-formed text within the limits.
    abbrev pub IsText : List ℕ → Type 0
    IsText s =
        (is_utf8 s ≡ true)
        × IsEncodable c.length_encoding (length s)
        × (prealloc_check c c.length_encoding 1 (length s) ≡ none)
        × (length (string_bytes s) ≤ max_usize)
