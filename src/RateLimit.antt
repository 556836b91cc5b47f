-- ===== src/RateLimit.antt =====
-- api/rate_limiters/limiters.py: the limits by address of mail, by IP address, by attempts and of all requests.
pub mod Server
pub mod Check
pub mod Window
pub mod Retry
pub mod Tokens
mod Tests
