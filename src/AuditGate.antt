-- ===== src/AuditGate.antt =====
-- audit_gate.py: the gate between candidates and trusted claims.
pub mod Gate
pub mod Record
pub mod Good
pub mod Discard
pub mod Sound
pub mod Recompute
pub mod Trusted
pub mod Tests
