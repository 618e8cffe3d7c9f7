-- ===== src/Runs.antt =====
-- The theorems at concrete inputs of wincode, and tests of the definitions.
mod Entry
mod Formats
mod Schemas
mod Streams
mod Collections
mod Kinds
