-- ===== src/Wsgateway.antt =====
-- Package internal/portal/wsgateway: the tickets of the websocket upgrade.
mod Examples
pub mod SingleUse
pub mod Tickets
