-- ===== src/Dnp3/Tests.antt =====
-- Runs of the DNP3 adapter and its operations with a toy reactor, and the theorems at them.
mod Samples
mod Adapters
mod Operations
