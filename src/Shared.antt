-- ===== src/Shared.antt =====
-- iaiops.core.brain._shared of the base package, which the operations call and whose code is not in
-- the repository.
use industrial_aiops_energy.Prelude.{ℕ, Option, none, some, Text}
use industrial_aiops_energy.Python.{Value, text}

-- `s` makes a text of at most a given length of a value, `num` a number of it where it can.
pub record Shared : Type 0 where
  pub s : Value → ℕ → Text
  pub num : Value → Option Value

-- num(raw) if num(raw) is not None else s(raw, n)
unfoldable pub num_or_s : Shared → Value → ℕ → Value
num_or_s sh raw n = elim (sh.num raw) [ some x ↦ x | none ↦ text (sh.s raw n) ]
