-- ===== src/Iec104.antt =====
-- iaiops_energy/connectors/iec104/ops.py: stations, points and the three operations on them.
pub mod Stations
pub mod Ops
mod Tests
