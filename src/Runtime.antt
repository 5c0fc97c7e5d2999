-- ===== src/Runtime.antt =====
-- apps/xira/internal/runtime: the life of an agent's turn, and who owns an entrypoint.
pub mod AgentTurn
pub mod BindCommand
pub mod OwnerBind
mod Tests
