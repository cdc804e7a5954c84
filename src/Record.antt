-- ===== src/Record.antt =====
-- crates/fractald-core/src/lib.rs, `ServiceRecord`: the state machine of one service.
pub mod Types
pub mod Start
pub mod Stop
pub mod Exit
pub mod Transition
pub mod Invariant
pub mod Effects
pub mod Runs
pub mod Lifecycle
pub mod Restart
pub mod Create
pub mod Tests
