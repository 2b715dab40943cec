-- ===== src/Capabilities.antt =====
-- Capability negotiation: the `CAPS` message of the daemon (daemon/src/stream_server.rs), the
-- `STNG` answer of the desktop client (client/desktop/src/capabilities.rs), and the clamping of
-- what the client asks for.
pub mod Tlv
pub mod Stng
pub mod Client
pub mod Settings
pub mod Clamp
pub mod Advertise
pub mod Trip
pub mod Bounds
pub mod Negotiate
pub mod Choice
pub mod Picked
mod Tests
