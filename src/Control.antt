-- ===== src/Control.antt =====
-- crates/fractald-control/src/lib.rs: what the supervisor and its clients say to each other, and the
-- markers of the services that are enabled or masked.
pub mod Types
pub mod Request
pub mod Response
pub mod Markers
mod Tests
