-- ===== src/Common.antt =====
-- crates/helium-sync-common: the wire types of the protocol, version negotiation, and the
-- third-party formatters that the server and the client share.
pub mod Types
pub mod Protocol
pub mod Codec
