-- ===== src/Lifecycle/Campaign.antt =====
-- lifecycle/campaign.py: the ledger of a campaign and its epochs.
pub mod Store
pub mod Operations
pub mod Ledger
pub mod Writes
pub mod Runs
pub mod Reach
pub mod Resumed
pub mod Tests
