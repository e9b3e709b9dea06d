-- ===== src/Lifecycle.antt =====
-- lifecycle/: the phases of a run, the audit leases and the campaign ledger.
pub mod State
pub mod AuditLease
pub mod Campaign
