-- ===== src/Operation/Sql.antt =====
-- backend/internal/db/sqlcgen/operations.sql.go: each statement on the tables.
mod Steps
mod Operations
unfoldable pub use Steps.*
unfoldable pub use Operations.*
