-- ===== src/Targets.antt =====
-- iaiops_energy/runtime/targets.py: the endpoint that an operation is given.
use industrial_aiops_energy.Prelude.{ℕ, zero, suc, Option, none, some, Text}

-- A TargetConfig with the addressing of EnergyTarget. `none` stands for None, and in the last two
-- fields for a plain TargetConfig, which lacks them.
pub record Target : Type 0 where
  pub name : Text
  pub protocol : Text
  pub host : Text
  pub port : Option ℕ
  pub unit_id : Option ℕ
  pub common_address : Option ℕ
  pub master_address : Option ℕ

-- x or d
abbrev pub or_default : Option ℕ → ℕ → ℕ
or_default none d = d
or_default (some zero) d = d
or_default (some (suc n)) d = suc n
