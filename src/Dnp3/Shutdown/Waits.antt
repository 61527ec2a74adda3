-- ===== src/Dnp3/Shutdown/Waits.antt =====
-- `shutdown` of dnp3/driver.py waits a bounded time, once.
use industrial_aiops_energy.Prelude.{
  ℕ, ltb, ◌≤◌, ◌≡◌, ◌⊎◌, inl, inr, refl, ◌∙◌, arith, true, false, Option, none, some, List, [], ◌∷◌,
  ℤ, pos_part, Bool-cases,
}
use industrial_aiops_energy.Python.{Runtime}
use industrial_aiops_energy.Dnp3.Adapter
use industrial_aiops_energy.Dnp3.Adapter.{
  Adapter, Binding, Callback, on_state_change, on_keep_alive_success, on_keep_alive_failure,
  on_keep_alive_result, on_receive_iin, process, deliver,
}
use industrial_aiops_energy.Dnp3.Poll.{Reactor, Live, live_clock, deliver_all}
use industrial_aiops_energy.Dnp3.Shutdown.{joined, shutdown}

module _ (rt : Runtime) (lib : Binding) where
  -- No callback touches the manager or the latch of `enable`.
  deliver-manager :
      (c : Callback) (a : Adapter)
      → ((deliver rt lib c a).manager ≡ a.manager) × ((deliver rt lib c a).enabled ≡ a.enabled)
  unfolding deliver
  deliver-manager (on_state_change s) a = (refl, refl)
  deliver-manager on_keep_alive_success a = (ground arith, ground arith)
  deliver-manager on_keep_alive_failure a = (ground arith, ground arith)
  deliver-manager (on_keep_alive_result s) a = (ground arith, ground arith)
  deliver-manager (on_receive_iin n) a = (ground arith, ground arith)
  deliver-manager (process v) a = (ground arith, ground arith)

  deliver_all-manager :
      (cs : List Callback) (a : Adapter)
      → ((deliver_all rt lib cs a).manager ≡ a.manager)
        × ((deliver_all rt lib cs a).enabled ≡ a.enabled)
  unfolding deliver_all
  deliver_all-manager [] a = (refl, refl)
  deliver_all-manager (c ∷ cs) a =
      let one = deliver-manager c a in
      let rest = deliver_all-manager cs (deliver rt lib c a) in (rest.0 ∙ one.0, rest.1 ∙ one.1)

joined_le : (timeout : ℤ) (takes : Option ℕ) → joined timeout takes ≤ pos_part timeout
unfolding joined
joined_le timeout none = omega arith
joined_le timeout (some t) = ground arith

-- A thread that takes this time, or for ever, is still running at the limit, or just ends.
unfoldable pub Outlasts : ℕ → Option ℕ → Type 0
Outlasts limit none = Unit
Outlasts limit (some t) = limit ≤ t

abbrev pub WaitedFor : ℕ → Option ℕ → ℕ → Type 0
WaitedFor limit takes d = (takes ≡ some d) ⊎ ((d ≡ limit) × Outlasts limit takes)

joined-WaitedFor :
    (timeout : ℤ) (takes : Option ℕ) → WaitedFor (pos_part timeout) takes (joined timeout takes)
unfolding joined Outlasts
joined-WaitedFor timeout none = inr (refl, tt)
joined-WaitedFor timeout (some t) = elim (Bool-cases (ltb t (pos_part timeout))) [
  | inl short ↦ inl (ground arith)
  | inr long ↦ inr (ground arith, ground arith)
]

module _ {W : Type 0} (rt : Runtime) (lib : Binding) (reactor : Reactor W) where
  -- The shutdown waited for this long, not over its limit: as long as the manager's Shutdown took, or
  -- the limit where that takes longer. The adapter was reset first.
  abbrev pub Waited : ℤ → Live W → ℕ → Type 0
  Waited timeout l d =
      (d ≤ pos_part timeout)
      × WaitedFor (pos_part timeout) (reactor.shutdown_takes l.world) d
      × (shutdown rt lib reactor timeout l
          ≡ (live_clock rt lib reactor).sleep d (record l { adapter = Adapter.shutdown l.adapter }))

  shutdown-Waited :
      (timeout : ℤ) (l : Live W)
      → l.adapter.manager ≡ true
      → Waited timeout l (joined timeout (reactor.shutdown_takes l.world))
  unfolding shutdown
  shutdown-Waited timeout l there = (
    joined_le timeout (reactor.shutdown_takes l.world),
    joined-WaitedFor timeout (reactor.shutdown_takes l.world),
    ground arith,
  )

  -- A shutdown leaves an adapter without a manager, which is not enabled, whatever callbacks arrive.
  shutdown-released :
      (timeout : ℤ) (l : Live W)
      → ((shutdown rt lib reactor timeout l).adapter.manager ≡ false)
        × ((shutdown rt lib reactor timeout l).adapter.enabled ≡ false)
  unfolding shutdown Adapter.shutdown
  shutdown-released timeout l = elim (Bool-cases l.adapter.manager) [
    | inr gone ↦ (ground arith, ground arith)
    | inl there ↦
        let d = joined timeout (reactor.shutdown_takes l.world) in
        let kept =
          deliver_all-manager rt lib (reactor.during_sleep d l.world)
            (Adapter.shutdown l.adapter) in
        (ground arith, ground arith)
  ]

  shutdown-idle :
      (timeout : ℤ) (l : Live W)
      → l.adapter.manager ≡ false
      → (shutdown rt lib reactor timeout l).world ≡ l.world
  unfolding shutdown
  shutdown-idle timeout l gone = ground arith

  -- A shutdown of an adapter that has a manager waits for the manager's Shutdown no longer than its
  -- limit, even if that blocks for ever, and no longer than that takes; the callbacks that arrive
  -- meanwhile leave the adapter without a manager and not enabled; and a second shutdown waits for
  -- nothing.
  pub shutdown_lem :
      (timeout again : ℤ) (l : Live W)
      → l.adapter.manager ≡ true
      → (d : ℕ) × Waited timeout l d
        × ((shutdown rt lib reactor timeout l).adapter.manager ≡ false)
        × ((shutdown rt lib reactor timeout l).adapter.enabled ≡ false)
        × ((shutdown rt lib reactor again (shutdown rt lib reactor timeout l)).world
            ≡ (shutdown rt lib reactor timeout l).world)
  shutdown_lem timeout again l there =
      let (released, disabled) = shutdown-released timeout l in
      (
        joined timeout (reactor.shutdown_takes l.world),
        shutdown-Waited timeout l there,
        released,
        disabled,
        shutdown-idle again (shutdown rt lib reactor timeout l) released,
      )
