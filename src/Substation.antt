-- ===== src/Substation.antt =====
-- iaiops_energy/analysis/substation.py: the analysis of a Sequence-of-Events.
mod Tests
pub mod Events
pub mod Normalize
pub mod Verdict
pub mod Report
