-- ===== src/Capacity.antt =====
-- The capacity of the nodes and the receipts of what is promised of it: the tables that
-- backend/internal/storage/infra writes (backend/migrations/0006 and 0007). Cores are counted in
-- hundredths, which numeric(10,2) holds exactly. Amounts are natural numbers: the plans that they come
-- from are checked to be positive, and the counters of a node to be neither negative nor, together,
-- above its total, so that no sum of them overflows.
mod Sql
mod Store
pub mod Books
pub mod Promises
mod Tests
unfoldable pub use Sql.*
unfoldable pub use Store.*
