-- ===== src/Serialization.antt =====
-- The serialization layer: bounded CDR writers and readers.
pub mod Cdr
pub mod Integral
pub mod Writer
pub mod Reader
pub mod Written
pub mod Integers
pub mod Copies
pub mod Bytes
pub mod Strings
pub mod Items
pub mod RoundTrip
pub mod Errors
pub mod ReadErrors
pub mod Alignment
mod Tests
