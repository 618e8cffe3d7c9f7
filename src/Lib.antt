-- ===== src/Lib.antt =====
-- A model of wincode, a binary serialisation library: schemas write values of Rust types to a byte
-- stream and read them back, in bincode's format by default.
--
-- The parts, from the bottom up, and the files that model them:
--
-- - Error (wincode/src/error.rs, wincode/src/io/mod.rs): the error types. A call comes to an
--   `Outcome` (Prelude/Outcomes): a value, an error, or `fault`, which stands for undefined
--   behaviour.
-- - Reader (wincode/src/io/mod.rs, slice.rs, cursor.rs, limit_reader.rs): the readers over memory,
--   one constructor of `Reader` each. A method takes the reader and returns it with its answer.
--   `as_trusted_for` takes the code that runs in the window as an argument, and the window is a
--   reader of its own whose reads out of bounds are faults. Reader/View says which bytes a reader
--   has, Reader/Reads when code reads given bytes as a value, Reader/Safe when it is memory safe, and
--   Reader/Parses what a success says of the bytes it took.
--   Reader/Limit has the calls on a `LimitReader` as steps, Reader/Borrow the borrowing methods, and
--   Reader/StdCursor the cursor of `std::io` (std_read.rs).
-- - Writer (wincode/src/io/mod.rs, slice.rs, vec.rs, cursor.rs): the writers over memory. The end of
--   a window, where the source's contract asks that it has been filled, is `close_slice` and its
--   siblings. Writer/Room says what room a writer has, Writer/Writes when code writes given bytes,
--   and Writer/StdCursor has the window of the cursor of `std::io` over a slice (std_write.rs).
-- - IntEncoding (wincode/src/schema/int_encoding.rs): `FixInt` and `VarInt`, at the sizes of `UInt`.
--   Bytes, Format, RoundTrip, Signed and Errors hold the theorems.
-- - TypeMeta (wincode/src/schema/mod.rs): what is known of an encoding at compile time.
-- - Config (wincode/src/config/mod.rs): the type parameters of `Configuration` as a record.
-- - Ints and Impls (wincode/src/schema/impls.rs): the schemas of the integers, `usize`,
--   floats as their bits, `bool`, `char`, `()`, `NonZero`, `Duration`, `SystemTime`, the network
--   addresses, `Option<T>`, `Result<T, E>`, `[T; N]`, the ranges, `Bound<T>`, `String`, the heap
--   containers, `Cow`, the cells and locks; Impls/Maps and Impls/Collections the macros
--   `impl_seq_kv` and `impl_seq_v`; Impls/Borrowed the zero-copy references, with the alignment of
--   the next byte as a parameter.
-- - SeqLen (wincode/src/len.rs): length encodings and preallocation limits.
-- - TagEncoding (wincode/src/schema/tag_encoding.rs): the discriminants of enums.
-- - Schema (wincode/src/schema/mod.rs): `SchemaWrite` and `SchemaRead` of a type as one record;
--   Schema/Laws is the interface between the schemas and the code that is generic in them.
-- - Elements (wincode/src/schema/mod.rs, containers.rs): sequences of elements, with the path that
--   copies memory, the path with a trusted window, and the loop.
-- - Containers (wincode/src/schema/containers.rs): `Vec`; Containers/Others the other containers,
--   Containers/Guard the destructors that `SliceDropGuard` runs when decoding fails.
-- - Adapters (wincode/src/schema/adapter.rs): `FromInto`, `DefaultOnEmptyRead`, `Discard` and
--   `DiscardSeq`.
-- - External (wincode/src/schema/external): `Uuid`, `SmallVec`, `Bytes` and `EcoString`.
-- - Serde (wincode/src/config/serde.rs, wincode/src/serde.rs): the entry points and the
--   deserialization limit.
-- - Runs: the theorems at concrete inputs.
--
-- Bounds. A byte is a natural number; what the encoders emit is below 256. `usize` has 64 bits, and
-- its sums and products at run time wrap around as in a release build (Prelude/Usize), also those of
-- the `const fn` `join_types`; where metadata is a `const` block, an overflow does not compile, and
-- the model leaves the sizes of `[T; N]` and the ranges as they are. Memory is little-endian.
-- An integer of `n` bytes is a natural number below `256 ^ n`, and a signed one is an integer. All
-- recursion is on a list or a number, so nothing needs fuel.
--
-- Code of the standard library and of other crates is a parameter: the operations of a collection
-- (`Collection`, `Conversion`), the clock, the access to a lock, the test of well-formed text, the
-- capacity that `Vec::with_capacity` reserves, and the size of a composed type in memory.
--
-- Not modelled: `ReadAdapter`, `WriteAdapter` and the other methods of the std cursors; the derive
-- macros and the tuples, whose code is generated at build time; `isize`; bv and bumpalo; length and
-- tag types that are signed; running out of memory, and the panic of `Vec::with_capacity` on a
-- capacity above `isize::MAX`.
pub mod Prelude
pub mod Error
pub mod Reader
pub mod Writer
pub mod IntEncoding
pub mod TypeMeta
pub mod Config
pub mod Ints
pub mod SeqLen
pub mod Schema
pub mod Elements
pub mod TagEncoding
pub mod Containers
pub mod Impls
pub mod Adapters
pub mod External
pub mod Serde
pub mod Runs
