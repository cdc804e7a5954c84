-- ===== src/Spec.antt =====
-- crates/fractald-core/src/lib.rs: what a service descriptor says, and how an exit is judged.
mod Policy
mod Limits
pub mod Modes
pub mod Condition
mod Commands
mod Types
mod New
pub mod Validate
mod Tests
unfoldable pub use Policy.*
unfoldable pub use Types.*
unfoldable pub use Limits.*
unfoldable pub use Commands.*
unfoldable pub use New.*
pub use Modes.{ServiceType}
