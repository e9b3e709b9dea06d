-- ===== src/Protocol.antt =====
-- contracts.py and schema.py: the contracts of what the jobs write.
pub mod Json
pub mod Contracts
pub mod Metrics
pub mod Schema
pub mod Counted
pub mod Listed
pub mod Tests
pub mod SchemaTests
