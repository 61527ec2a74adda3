-- ===== src/Iec61850.antt =====
-- iaiops_energy/connectors/iec61850/driver.py: the adapter over the libiec61850 binding.
pub mod Binding
pub mod Browse
pub mod Connection
pub mod Read
pub mod Ops
mod Tests
