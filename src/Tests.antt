-- ===== src/Tests.antt =====
-- The development run on concrete tables.
mod World
mod Tickets
mod Sessions
mod Grants
mod Enrolments
mod Clients
mod Launches
mod Requests
mod Secrets
mod Trust
