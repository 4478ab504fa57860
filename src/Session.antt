-- ===== src/Session.antt =====
-- src/session: the channels that share one stream, what carries them, and the streams of a session.
pub mod FlexBuffer
pub mod Packet
pub mod Reassembly
pub mod PacketType
pub mod Channels
pub mod Multiplex
pub mod Streams
pub mod Services
