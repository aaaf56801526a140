-- ===== src/Protocol.antt =====
-- app/protocol: admission of requests.
pub mod RateLimit
pub mod Auth
mod Examples
