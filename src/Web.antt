-- ===== src/Web.antt =====
-- web: the parts of the HTTP server.
pub mod Listeners
pub mod Session
pub mod Cookies
pub mod Login
pub mod Defs
pub mod News
pub mod Pages
pub mod Routes
pub mod Files
