-- ===== src/Githttp.antt =====
-- Package internal/portal/githttp: the pkt-line protocol of git's smart HTTP transport.
mod Examples
pub mod Pktline
pub mod Framing
pub mod Report
pub mod Commands
