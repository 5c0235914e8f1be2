-- ===== src/Engine.antt =====
-- src/engine.rs: the engine that runs sing-box.
pub mod Balance
pub mod Calls
pub mod Core
pub mod Desktop
pub mod Dispatch
pub mod Fields
pub mod Job
pub mod Tasks
pub mod Privileged
pub mod Exit
pub mod Quiet
pub mod Leaks
pub mod Mobile
pub mod Outcomes
pub mod Readiness
pub mod Rules
pub mod Running
pub mod Scripts
pub mod Session
pub mod Stop
pub mod System
mod Tests
