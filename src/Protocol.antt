-- ===== src/Protocol.antt =====
-- FreakyCampManager/protocol.h and protocol.cpp: the frames between the camper and the tablet.
mod Telemetry
mod Frames
mod Commands
pub mod Sending
pub mod Apart
pub mod Reports
pub mod Shorts
pub mod Clash
pub mod Bank
pub mod Encoding
pub mod Relays
unfoldable pub use Telemetry.*
unfoldable pub use Frames.*
unfoldable pub use Commands.*
