-- ===== src/Rtsp.antt =====
-- sinks/rtsp: the RTSP server that plays a channel over RTP.
pub mod Framing
pub mod Packets
pub mod State
pub mod Server
