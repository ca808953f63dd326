-- ===== src/Session.antt =====
-- The program's way to the database: the connection pool (repo.DBTX), a transaction
-- (repo.Beginner and pgx.Tx, with the deferred Rollback), and the error results in between.
pub mod Actions
pub mod Calls
pub mod Rules
pub mod Calm
pub mod Atomic
unfoldable pub use Actions.*
unfoldable pub use Calls.*
