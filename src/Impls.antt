-- ===== src/Impls.antt =====
-- wincode/src/schema/impls.rs: the schemas of single types and of the types built from them.
pub mod Scalars
pub mod Options
pub mod Arrays
pub mod Strings
pub mod Results
pub mod Durations
pub mod Boxes
pub mod Collections
pub mod Maps
pub mod Chars
pub mod NonZero
pub mod Ranges
pub mod Bounds
pub mod Addresses
pub mod Floats
pub mod Times
pub mod Words
pub mod Signed
pub mod Borrowed
pub mod Cells
