-- ===== src/Identity.antt =====
-- Accounts, sessions and logins (backend/internal/identity, backend/internal/redisx/session.go and
-- backend/internal/storage/identity/directory.go). The service, the session store and Redis read one clock
-- here, the `now` of each call. Parameters stand for what lies outside: the hashing of passwords,
-- base32 and HMAC, JSON, random tokens, and the lower case of a text.
mod Types
mod Totp
mod Sessions
mod Directory
mod Service
pub mod Stored
pub mod Logins
pub mod Current
mod Tests
unfoldable pub use Types.*
unfoldable pub use Totp.*
unfoldable pub use Sessions.*
unfoldable pub use Directory.*
unfoldable pub use Service.*
