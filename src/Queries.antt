-- ===== src/Queries.antt =====
-- The statements of internal/adapters/postgresql/sqlc/queries.sql.go, one function to each. A
-- statement is atomic: it waits for a row that another transaction holds, and tests its WHERE
-- clause on the newest version of the row.
pub mod Inserted
pub mod Turns
pub mod StockRows
pub mod OrderRows
pub mod CustomerRows
pub mod ProductRows
pub mod KeyRows
pub mod Reservation
pub mod Expiry
pub mod Pages
pub mod EventRows
pub use Turns.*
