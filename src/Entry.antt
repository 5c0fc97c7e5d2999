-- ===== src/Entry.antt =====
-- How a message comes in: its context (apps/xira/internal/channel), the entrypoint that it belongs to
-- (entrypoints), and whether it may start a turn (channelrunner/ingest).
pub mod Texts
pub mod Inbound
pub mod Definition
pub mod Registry
pub mod Gate
mod Tests
