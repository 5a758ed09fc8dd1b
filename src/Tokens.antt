-- ===== src/Tokens.antt =====
-- Package internal/portal/tokens: the bearer tokens of the portal.
pub mod Changes
pub mod Edits
mod Examples
pub mod Minting
pub mod Ownership
pub mod Rotation
pub mod Runs
pub mod Service
pub mod Spent
pub mod Tables
pub mod Validity
