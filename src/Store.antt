-- ===== src/Store.antt =====
-- controller/internal/app/store.go: the operations on the controller's database, and the proofs
-- about them. Each operation is an action on `Db`; the clock readings and the random tokens that
-- it takes are arguments (`none` for a token is a failure of the random source). The database has
-- one connection, so a statement or a transaction is atomic; a statement fails only by a
-- constraint of the schema, never by an I/O error.
pub mod Audit
pub mod Access
pub mod Launch
pub mod Sessions
pub mod Users
pub mod Handoffs
pub mod Maintenance
pub mod Devices
pub mod Events
pub mod Credentials
pub mod Choices
pub mod Setup
