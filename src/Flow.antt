-- ===== src/Flow.antt =====
-- apps/xira/internal/flow: a state machine that advances a run along the steps of its definition.
pub mod Types
pub mod Run
pub mod Definition
pub mod Store
pub mod Parsing
pub mod Expressions
pub mod Kernel
pub mod Resume
pub mod Start
pub mod Creation
pub mod Recording
pub mod Starting
pub mod Targets
pub mod Lookups
pub mod Keeping
pub mod Serving
pub mod Stepping
pub mod Advancing
pub mod Following
pub mod Resuming
mod Sample
mod Tests
mod StartTests
