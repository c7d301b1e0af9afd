-- ===== src/Rtc.antt =====
-- sinks/playrtc: playing a channel by WebRTC.
pub mod Offer
pub mod Sender
