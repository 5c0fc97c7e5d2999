-- ===== src/HumanRequest.antt =====
-- apps/xira/internal/humanrequest: requests for a human's answer, kept one to a file.
pub mod Types
pub mod Validate
pub mod Disk
pub mod Store
pub mod Transitions
pub mod Operations
pub mod Queries
pub mod Lifecycle
pub mod Edits
pub mod Decisions
pub mod Evolution
pub mod Calls
pub mod Creation
pub mod Held
pub mod Recovery
pub mod Histories
pub mod Inversion
pub mod Claiming
pub mod Resolving
pub mod Answering
pub mod Creating
pub mod Listing
pub mod Finding
pub mod Asking
pub mod Text
pub mod Typing
mod Sample
mod Tests
mod TextTests
