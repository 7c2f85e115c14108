-- ===== src/Web.antt =====
-- The controller's web server (controller/internal/web/server.go).
pub mod Validate
pub mod Bodies
pub mod Create
pub mod Records
pub mod Update
pub mod Delete
pub mod Request
pub mod Gate
pub mod Handlers
pub mod Public
pub mod Terminals
pub mod Admin
pub mod Serve
pub mod Range
