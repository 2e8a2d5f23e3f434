-- ===== src/Proxy.antt =====
-- Parts of the credential proxy of a container: app/services/proxy.
pub mod Words
pub mod Headers
pub mod Chunked
pub mod Connection
pub mod Answer
pub mod Server
pub mod Whitelist
pub mod Dns
mod Tests
