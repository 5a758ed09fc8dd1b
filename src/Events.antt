-- ===== src/Events.antt =====
-- Package internal/portal/events: the event log of the sessions and its subscribers.
mod Examples
pub mod Gapless
pub mod History
pub mod Log
pub mod Paging
pub mod Transaction
