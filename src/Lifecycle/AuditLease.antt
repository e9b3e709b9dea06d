-- ===== src/Lifecycle/AuditLease.antt =====
-- lifecycle/audit_lease.py: the book of audit leases, its operations and what they keep.
pub mod Book
pub mod Operations
pub mod Steps
pub mod Keeps
pub mod Replay
pub mod WellFormed
pub mod Loop
pub mod Recovery
pub mod Priority
pub mod Transitions
pub mod History
pub mod Recorded
pub mod Tests
