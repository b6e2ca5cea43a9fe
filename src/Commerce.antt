-- ===== src/Commerce.antt =====
-- backend/internal/commerce and its store, by parts.
pub mod Cycle
pub mod States
pub mod Types
pub mod Orders
pub mod Tables
pub mod Sql
pub mod Store
pub mod Gateway
pub mod Activation
pub mod Settlement
pub mod Renewal
pub mod Sweep
pub mod Checkout
