-- ===== src/Admin.antt =====
-- The admin console (apps/admin): manual postings, requested by one person and decided by another.
pub mod Console
pub mod Desk
pub mod Staff
pub mod Requests
pub mod Postings
pub mod Tests
