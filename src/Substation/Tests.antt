-- ===== src/Substation/Tests.antt =====
-- Runs of the analysis of substation.py on small event lists, and the theorems at them.
mod Samples
mod Verdicts
mod Inputs
mod Again
