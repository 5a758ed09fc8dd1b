-- ===== src/Prereceive.antt =====
-- Package internal/portal/prereceive: the policy checks on a push.
mod Examples
pub mod Trailers
pub mod Traversal
pub mod Repo
pub mod Scope
pub mod Refs
pub mod Commits
pub mod Validate
pub mod Namespace
pub mod Acceptance
pub mod Accepted
pub mod TrailerFormat
pub mod Gaps
