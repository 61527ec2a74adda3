-- ===== src/Sessions.antt =====
-- iaiops_energy/runtime/sessions.py: opening a connection, running an operation on it, closing it.
pub mod Action
pub mod Messages
pub mod Managers
mod Tests
