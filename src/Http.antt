-- ===== src/Http.antt =====
-- src/http_client.cpp and its header, by its classes.
pub mod Url
pub mod Headers
pub mod Message
pub mod Client
pub mod Cache
pub mod Tls
pub mod Execute
pub mod Paths
pub mod Secrets
pub mod Rows
pub mod Members
pub mod Wire
pub mod Repro
pub mod Traces
pub mod Redaction
