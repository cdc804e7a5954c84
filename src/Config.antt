-- ===== src/Config.antt =====
-- The parser of service declarations.
pub mod Error
pub mod Words
pub mod Schema
pub mod File
pub mod Reader
pub mod Values
pub mod Choices
pub mod Signals
pub mod Masks
pub mod Conditions
pub mod Lookup
pub mod Groups
pub mod SyscallFilter
pub mod Security
pub mod Tests
