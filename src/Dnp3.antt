-- ===== src/Dnp3.antt =====
-- iaiops_energy/connectors/dnp3: the master adapter over opendnp3, and the operations on it.
pub mod Points
pub mod Adapter
pub mod Poll
pub mod Shutdown
pub mod Stack
pub mod Ops
mod Tests
