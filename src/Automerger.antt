-- ===== src/Automerger.antt =====
-- Package internal/portal/automerger: the three-way merge of a source commit into the draft of a session.
mod Examples
pub mod Additions
pub mod Conflicts
pub mod Diff
pub mod Heuristics
pub mod Merge
pub mod Parsed
pub mod Placement
pub mod Repo
pub mod Resolved
pub mod Script
pub mod Union
pub mod Walk
pub mod Whitespace
pub mod Tree
pub mod Run
pub mod Outcome
pub mod Paths
pub mod Loop
pub mod Applied
pub mod Verdict
pub mod Answers
pub mod Range
pub mod Refined
pub mod Combined
