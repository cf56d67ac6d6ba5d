-- ===== src/Packets.antt =====
-- broker/packets: reason codes, primitive encodings, headers, properties and packets.
pub mod Codes
pub mod Errors
pub mod Codec
pub mod Types
pub mod FixedHeader
pub mod UserProperty
pub mod Properties
pub mod Packet
