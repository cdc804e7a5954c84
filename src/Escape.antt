-- ===== src/Escape.antt =====
-- crates/fractald-escape/src/main.rs: names of services made of arbitrary text. A `str` is here the
-- list of its bytes.
pub mod Utf8
pub mod Encode
pub mod Decode
pub mod Options
mod Tests
pub mod RoundTrip
pub mod Panics
pub mod Paths
