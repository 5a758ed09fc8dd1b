-- ===== src/Lease.antt =====
-- Package internal/portal/lease: session leases on Postgres advisory locks, and their fencing tokens.
mod Examples
pub mod Cluster
pub mod Exclusion
pub mod Fencing
