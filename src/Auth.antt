-- ===== src/Auth.antt =====
-- The auth service (apps/auth): its limits on guesses and transfers, its one-time codes, its tokens
-- and sessions, and where they meet.
pub mod Lockout
pub mod Caps
pub mod Otp
pub mod Tokens
pub mod Sessions
pub mod SignIn
pub mod Tests
