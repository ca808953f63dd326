-- ===== src/Store.antt =====
-- The state that the program keeps: the tables of internal/adapters/postgresql (the row types of
-- sqlc/models.go) and the errors that a call can end in.
mod Rows
mod Errors
pub use Rows.*
pub use Errors.*
