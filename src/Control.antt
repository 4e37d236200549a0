-- ===== src/Control.antt =====
-- src/worker_harness/heartbeat.py: the HTTP control plane.
pub mod Auth
pub mod Revoked
pub mod Gateway
pub mod Victim
pub mod Messages
pub mod Mailing
pub mod Permitted
pub mod Tasks
pub mod Bridge
pub mod Ownership
pub mod Queue
pub mod Requests
pub mod Reconcile
pub mod Ending
pub mod Handling
pub mod Admission
mod Examples
