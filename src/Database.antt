-- ===== src/Database.antt =====
-- The database as the stores use it (backend/internal/storage, pgx): statements that may fail, and
-- transactions that roll back. A statement is one entry of the schedule `faults`: where it says so, the
-- statement fails and changes nothing. That covers lost connections and every constraint that the
-- statements of the model do not state.
mod Defs
mod Rules
mod Done
mod Atomicity
mod Relations
unfoldable pub use Defs.*
pub use Rules.*
pub use Done.*
pub use Atomicity.*
pub use Relations.*
