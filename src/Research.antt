-- ===== src/Research.antt =====
-- research_job.py and reasoning_health.py: whether a research job goes on.
pub mod Health
pub mod Interventions
pub mod TurnPolicy
pub mod Turns
pub mod Limits
pub mod Tests
