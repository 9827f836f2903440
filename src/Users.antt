-- ===== src/Users.antt =====
-- app/db/crud/users.py: the operations on one user's row and on the table of users.
pub mod Reset
pub mod Proxies
pub mod Limits
pub mod Update
pub mod Bulk
