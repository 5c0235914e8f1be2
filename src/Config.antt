-- ===== src/Config.antt =====
-- src/config.rs: the sing-box configuration for a profile.
pub mod Dns
pub mod Routes
pub mod Outbound
pub mod Generate
