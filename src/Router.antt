-- ===== src/Router.antt =====
-- Packages of internal/router: the hash ring, the hint cache and the session id of a request.
mod Examples
pub mod Cache
pub mod Recency
pub mod Ring
pub mod Extract
pub mod Search
pub mod Shapes
pub mod Successor
