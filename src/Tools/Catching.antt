-- ===== src/Tools/Catching.antt =====
-- A decorator that makes an error dict of every exception, for the tests of the tools.
use industrial_aiops_energy.Prelude.{inl, inr, arith, none, some, [], Option-cases}
use industrial_aiops_energy.Python.{Result, ok, raise}
use industrial_aiops_energy.Sessions.Action.{Run}
use industrial_aiops_energy.Tools.Answers.{Answer, answered, error_dict, Honest}

abbrev pub caught : {A : Type 0} → Result A → Answer A
caught (ok a) = answered a
caught (raise e) = error_dict []

abbrev pub catching : {W A : Type 0} → Run W A → Run W (Answer A)
catching m st = elim (m st) [ none ↦ none | some (r, st') ↦ some (ok (caught r), st') ]

pub catching-Honest : {W A : Type 0} → Honest {W = W} {A = A} catching
catching-Honest m a st st' h = elim (Option-cases (m st)) [
  | inl hangs ↦ absurd (ground arith)
  | inr ((ok b, mid), e) ↦ ground arith
  | inr ((raise x, mid), e) ↦ absurd (ground arith)
]
