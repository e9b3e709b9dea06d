-- ===== src/Wire.antt =====
-- models.py: the decoding of candidate events and of audit results.
pub mod Paths
pub mod Safe
pub mod Receipts
pub mod Checks
pub mod Candidate
pub mod Accepted
pub mod Event
pub mod Audit
pub mod Identity
pub mod Tests
pub mod AuditTests
