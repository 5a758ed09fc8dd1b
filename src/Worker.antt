-- ===== src/Worker.antt =====
-- The auto-merger's worker: internal/portal/automerger/worker.go.
mod Examples
pub mod Order
pub mod Outcome
pub mod Owners
pub mod Queue
pub mod Stop
