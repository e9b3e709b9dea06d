-- ===== src/ClaimGraph.antt =====
-- claim_graph.py: the graph of claims.
pub mod Claim
pub mod Candidate
pub mod Audit
pub mod Promote
pub mod Outcomes
pub mod Backed
pub mod Untouched
pub mod Tests
pub mod Dependencies
pub mod Prune
pub mod Rounds
pub mod Blocked
pub mod PruneTests
pub mod WalkTests
pub mod Closure
pub mod Cycles
pub mod Validate
pub mod Frontier
pub mod Dependents
