-- ===== src/Import.antt =====
-- src/import.rs: the import of servers from links. What the crates url, base64, serde_json and uuid do
-- is a parameter.
pub mod Query
pub mod Good
pub mod Links
pub mod Rooms
mod Tests
