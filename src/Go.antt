-- ===== src/Go.antt =====
-- What the program uses of Go's standard library.
pub mod Maps
pub mod Strings
