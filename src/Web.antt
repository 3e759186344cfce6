-- ===== src/Web.antt =====
-- The web server: include/iouring_runtime/web and src/modules/web.
pub mod Method
pub mod Paths
pub mod RadixTree
pub mod Status
pub mod Request
pub mod Parser
pub mod Response
pub mod Router
