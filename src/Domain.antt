-- ===== src/Domain.antt =====
-- domain_semantics.py: the pinned contracts of the research domains and what they decide.
pub mod Contract
pub mod Builtin
pub mod Validate
pub mod Semantics
pub mod Pinned
pub mod Tests
