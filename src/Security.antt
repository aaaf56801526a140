-- ===== src/Security.antt =====
-- app/security: the redaction of secrets.
pub mod Redact
pub mod Audit
mod Examples
