-- ===== src/Agent.antt =====
-- The agent of a device (agent/internal).
pub mod Command
pub mod Manager
pub mod Trust
