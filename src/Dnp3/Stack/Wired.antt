-- ===== src/Dnp3/Stack/Wired.antt =====
-- The stack of dnp3/driver.py and the callbacks that reach the adapter.
use industrial_aiops_energy.Prelude.{
  ◌≡◌, ◌≢◌, ◌⊎◌, inl, inr, arith, Bool, true, false, [], Bool-cases,
}
use industrial_aiops_energy.Python.{Runtime}
use industrial_aiops_energy.Dnp3.Points.{Collection, harvest_collection}
use industrial_aiops_energy.Dnp3.Adapter.{Adapter, Binding, process, deliver}
use industrial_aiops_energy.Dnp3.Stack.{
  console_logger, soe_handler, collector, make_log_handler, make_soe,
}

-- The log can reach stdout only behind a warning.
pub console_logger-warned :
    (has_log_handler : Bool)
    → (make_log_handler has_log_handler).0 ≡ console_logger
    → (make_log_handler has_log_handler).1 ≢ []
unfolding make_log_handler
console_logger-warned true h = ground arith
console_logger-warned false h = λ e. cc

module _ (rt : Runtime) (lib : Binding) where
  -- Measurements are harvested exactly where the stack has the handler of the driver.
  pub soe_handler-deliver :
      (values : Collection) (a : Adapter)
      → ((make_soe lib ≡ soe_handler)
          × ((deliver rt lib (process values) a).points ≡ harvest_collection rt values a.points))
        ⊎ ((make_soe lib ≡ collector) × (deliver rt lib (process values) a ≡ a))
  unfolding make_soe deliver
  soe_handler-deliver values a = elim (Bool-cases lib.has_soe_handler) [
    | inl there ↦ inl (ground arith, ground arith)
    | inr missing ↦ inr (ground arith, ground arith)
  ]
