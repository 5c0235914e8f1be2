-- ===== src/Olcrtc.antt =====
-- src/olcrtc/: the tunnel through a WB Stream room.
pub mod WbStream
pub mod Frame
pub mod Stream
pub mod Mux
pub mod Crypto
pub mod Settings
pub mod Client
mod Tests
mod Examples
mod KeyTests
mod ClientTests
mod TunnelTests
mod RelayTests
