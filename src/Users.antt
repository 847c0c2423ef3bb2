-- ===== src/Users.antt =====
-- backend/internal/users/store.go: the accounts of a school, their sessions and what they may do.
pub mod Store
pub mod Sessions
pub mod Accounts
pub mod Tests
