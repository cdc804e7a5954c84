-- ===== src/Graph.antt =====
-- crates/fractald-core/src/graph.rs: the dependency graph of the services and its plans.
pub mod Paths
pub mod Model
pub mod Ordering
pub mod Sorting
pub mod Closure
pub mod Plan
pub mod BestEffort
mod Samples
mod SortTests
mod Tests
