-- ===== src/Ftl.antt =====
-- ingest/ftl: the FTL ingest server.
pub mod Words
pub mod Deframer
pub mod State
pub mod Handlers
pub mod Serve
pub mod Receivers
pub mod Reader
