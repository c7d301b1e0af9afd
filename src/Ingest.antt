-- ===== src/Ingest.antt =====
-- ingest: channels, publishing and playing.
pub mod Channel
pub mod Copy
pub mod Manager
pub mod Publish
pub mod Rtmp
