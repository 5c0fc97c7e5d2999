-- ===== src/Channel.antt =====
-- apps/xira/internal/channelrunner: what stands between a transport and the turns of an agent.
pub mod ChatKey
pub mod Dedupe
pub mod Steering
pub mod Spawn
pub mod Events
pub mod Render
pub mod ChatContext
pub mod Children
pub mod Router
pub mod Session
mod Tests
