-- ===== src/Server.antt =====
-- server: the configuration of the proxy, and how it follows its providers.
pub mod Settings
pub mod Defaults
pub mod Throttle
pub mod Handlers
pub mod Load
pub mod Reload
pub mod PostLoad
pub mod TlsConfig
