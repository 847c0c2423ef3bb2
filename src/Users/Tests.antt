-- ===== src/Users/Tests.antt =====
-- Runs of the operations on users on concrete data.
pub mod Data
mod Sessions
mod Accounts
