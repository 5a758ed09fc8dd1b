-- ===== src/Finalize.antt =====
-- Package internal/portal/finalize: the finalize lock of a session, its handlers and their laws.
mod Examples
pub mod Expiry
pub mod Store
pub mod Protocol
pub mod Acquire
pub mod Uniqueness
pub mod Takeover
pub mod Escape
pub mod Patch
pub mod Release
pub mod Ship
pub mod Lifecycle
pub mod Exclusion
pub mod Quoting
pub mod Ending
