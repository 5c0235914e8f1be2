-- ===== src/MacosVpn.antt =====
-- src/macos_vpn.rs: the VPN profile of the plugin among the tunnel managers that macOS keeps. The framework
-- NetworkExtension is a record of functions over a state of its own; a completion handler that is not called
-- within the 30 seconds of `recv_timeout` is `waits`.
pub mod Framework
pub mod Profile
pub mod Store
pub mod Starts
pub mod Succeeds
mod Tests
