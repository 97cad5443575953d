-- ===== src/Websocket.antt =====
-- The websocket frames of include/xynet/http: flags, header builder, header parser and masking.
pub mod Flags
pub mod Header
pub mod Parser
pub mod Mask
