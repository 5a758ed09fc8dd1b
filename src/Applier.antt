-- ===== src/Applier.antt =====
-- The auto-merger's outcomes: outcomes.go and addressing.go of internal/portal/automerger, and the
-- pipeline of worker.go that calls them.
pub mod Address
pub mod Addressees
pub mod Applied
pub mod Apply
pub mod Closing
pub mod Delivery
pub mod Emit
mod Examples
pub mod Isolation
pub mod Lines
pub mod Message
pub mod Owner
pub mod Process
pub mod Readback
pub mod Success
