-- ===== src/Dnp3/Poll/Fresh.antt =====
-- What an integrity poll of dnp3/driver.py returns.
use mathlib.Core.Path.{subst}
use industrial_aiops_energy.Prelude.{
  ℕ, ◌+◌, ◌≡◌, inl, inr, refl, sym, ap, ◌∙◌, arith, true, Option, none, some, List, [], ◌∷◌, ◌++◌,
  All, ℤ, pos_part, Option-cases, Bool-cases,
}
use industrial_aiops_energy.Python.{Runtime, ok, Exception}
use industrial_aiops_energy.Waiting.{ClockLaws, settle_scan}
use industrial_aiops_energy.Waiting.Settle.{Settled, settle_scan-Settled, settle_scan-keeps}
use industrial_aiops_energy.Dnp3.Points.{Point}
use industrial_aiops_energy.Dnp3.Points.Labels.{Labelled, harvest_collection-Labelled}
use industrial_aiops_energy.Dnp3.Adapter.{
  Adapter, Binding, Callback, on_state_change, on_keep_alive_success, on_keep_alive_failure,
  on_keep_alive_result, on_receive_iin, process, deliver,
}
use industrial_aiops_energy.Dnp3.Poll.{
  Reactor, Live, deliver_all, live_clock, count_points, settle_after, start_scan, integrity_poll,
}

-- The callbacks that arrived from the call of ScanClasses at a world up to another.
pub data Arrived {W : Type 0} (reactor : Reactor W) (began : W) : List Callback → W → Type 0 where
  scanning : Arrived reactor began (reactor.during_scan began) (reactor.scan began).1
  sleeping :
      {cs : List Callback} (d : ℕ) (v : W)
      → Arrived reactor began cs v
      → Arrived reactor began (cs ++ reactor.during_sleep d v) (reactor.clock.sleep d v)

module _ {W : Type 0} (rt : Runtime) (lib : Binding) (reactor : Reactor W) where
  deliver_all-append :
      (cs ds : List Callback) (a : Adapter)
      → deliver_all rt lib (cs ++ ds) a ≡ deliver_all rt lib ds (deliver_all rt lib cs a)
  unfolding deliver_all
  deliver_all-append [] ds a = refl
  deliver_all-append (c ∷ cs) ds a = deliver_all-append cs ds (deliver rt lib c a)

  -- The adapter is what the callbacks since `began` made of `cleared`.
  abbrev Made : W → Adapter → Live W → Type 0
  Made began cleared l =
      (cs : List Callback) × Arrived reactor began cs l.world
      × (l.adapter ≡ deliver_all rt lib cs cleared)

  slept-Made :
      (began : W) (cleared : Adapter) (d : ℕ) (l : Live W)
      → Made began cleared l
      → Made began cleared ((live_clock rt lib reactor).sleep d l)
  slept-Made began cleared d l (cs, arrived, e) = (
    cs ++ reactor.during_sleep d l.world,
    sleeping d l.world arrived,
    ap (deliver_all rt lib (reactor.during_sleep d l.world)) e
        ∙ sym (deliver_all-append cs (reactor.during_sleep d l.world) cleared),
  )

  integrity_poll-scanned :
      (settle : ℤ) (l : Live W)
      → l.adapter.dnpmaster ≡ true
      → lib.has_scan_classes ≡ true
      → integrity_poll rt lib reactor settle l
        ≡ settle_after rt lib reactor settle
            (start_scan rt lib reactor (record l { adapter = record l.adapter { points = [] } }))
  unfolding integrity_poll
  integrity_poll-scanned settle l master classes = ground arith

  settle_after-some :
      (settle : ℤ) (e : Option Exception) (l l' : Live W)
      → e ≡ none
      → settle_scan (live_clock rt lib reactor) count_points 200_000 50_000 settle l ≡ some l'
      → settle_after rt lib reactor settle (e, l) ≡ some (ok l'.adapter.points, l')
  settle_after-some settle (some x) l l' h run = absurd (ground arith)
  settle_after-some settle none l l' h run = ground arith

  -- An integrity poll of an adapter with a master, whose scan does not raise, ends, if a sleep takes
  -- its time. It returns exactly the points that the callbacks since its start made, beginning
  -- with none: no earlier point is left, none is lost. And it ended at its time limit, or at a
  -- positive count of points that had not changed for 200 ms.
  pub integrity_poll-Fresh :
      ClockLaws reactor.clock
      → (settle : ℤ) (l : Live W) → l.adapter.dnpmaster ≡ true
      → lib.has_scan_classes ≡ true
      → (reactor.scan l.world).0 ≡ none
      → (l' : Live W) × (cs : List Callback) × (integrity_poll rt lib reactor settle l
          ≡ some (ok l'.adapter.points, l'))
        × Arrived reactor l.world cs l'.world
        × (l'.adapter ≡ deliver_all rt lib cs (record l.adapter { points = [] }))
        × Settled
            (live_clock rt lib reactor)
            count_points
            200_000
            50_000
            (reactor.clock.monotonic (reactor.scan l.world).1 + pos_part settle)
            l'
  unfolding integrity_poll
  integrity_poll-Fresh laws settle l master classes quiet =
      let cleared = record l.adapter { points = [] } in
      let begun = (start_scan rt lib reactor (record l { adapter = cleared })).1 in
      let (l', run, settled) =
        settle_scan-Settled (live_clock rt lib reactor) count_points 200_000 50_000
          (record { sleep_takes = λ d v. laws.sleep_takes d v.world }) (λ v. omega arith)
          (omega arith) settle begun in
      let (cs, arrived, e) =
        settle_scan-keeps (live_clock rt lib reactor) count_points 200_000 50_000
          (Made l.world cleared) (λ v p. p) (slept-Made l.world cleared 50_000) settle begun l'
          (reactor.during_scan l.world, scanning, refl) run in
      (
        l',
        cs,
        integrity_poll-scanned settle l master classes
            ∙ settle_after-some settle (reactor.scan l.world).0 begun l' quiet run,
        arrived,
        e,
        settled,
      )

  deliver-Labelled :
      (c : Callback) (a : Adapter)
      → All Labelled a.points
      → All Labelled (deliver rt lib c a).points
  unfolding deliver
  deliver-Labelled (on_state_change state) a h = h
  deliver-Labelled on_keep_alive_success a h = elim (Bool-cases lib.has_master_application) [
    | inl e ↦ rw e h
    | inr e ↦ rw e h
  ]
  deliver-Labelled on_keep_alive_failure a h = elim (Bool-cases lib.has_master_application) [
    | inl e ↦ rw e h
    | inr e ↦ rw e h
  ]
  deliver-Labelled (on_keep_alive_result status) a h =
      elim (Bool-cases lib.has_master_application) [ inl e ↦ rw e h | inr e ↦ rw e h ]
  deliver-Labelled (on_receive_iin iin) a h = elim (Bool-cases lib.has_master_application) [
    | inl e ↦ rw e h
    | inr e ↦ rw e h
  ]
  deliver-Labelled (process values) a h = elim (Bool-cases lib.has_soe_handler) [
    | inl e ↦ rw e (harvest_collection-Labelled rt values a.points h).0
    | inr e ↦ rw e h
  ]

  deliver_all-Labelled :
      (cs : List Callback) (a : Adapter)
      → All Labelled a.points
      → All Labelled (deliver_all rt lib cs a).points
  unfolding deliver_all
  deliver_all-Labelled [] a h = h
  deliver_all-Labelled (c ∷ cs) a h =
      deliver_all-Labelled cs (deliver rt lib c a) (deliver-Labelled c a h)

  settle_after-Labelled :
      (settle : ℤ) (e : Option Exception) (l l' : Live W) (ps : List Point)
      → All Labelled l.adapter.points
      → settle_after rt lib reactor settle (e, l) ≡ some (ok ps, l')
      → All Labelled ps
  settle_after-Labelled settle (some e) l l' ps h r = absurd (ground arith)
  settle_after-Labelled settle none l l' ps h r =
      elim (Option-cases
        (settle_scan (live_clock rt lib reactor) count_points 200_000 50_000 settle l)) [
          | inl hangs ↦ absurd (ground arith)
          | inr (out, run) ↦
              let same : out.adapter.points ≡ ps = ground arith in
              subst (All Labelled) same (
                settle_scan-keeps (live_clock rt lib reactor) count_points 200_000 50_000
                  (λ v. All Labelled v.adapter.points) (λ v p. p)
                  (λ v p. deliver_all-Labelled (reactor.during_sleep 50_000 v.world) v.adapter p)
                  settle l out h run)
        ]

  -- Every point that an integrity poll returns, on whatever branch, has a group with its name out of
  -- the table of types, or no group and a type that says that its collection is unknown.
  pub integrity_poll-Labelled :
      (settle : ℤ) (l l' : Live W) (ps : List Point)
      → integrity_poll rt lib reactor settle l ≡ some (ok ps, l')
      → All Labelled ps
  unfolding integrity_poll
  integrity_poll-Labelled settle l l' ps r =
      let cleared : Live W = record l { adapter = record l.adapter { points = [] } } in
      elim (Bool-cases l.adapter.dnpmaster) [
        | inr unset ↦ let same : [] ≡ ps = ground arith in subst (All Labelled) same tt
        | inl master ↦ elim (Bool-cases lib.has_scan_classes) [
          | inr missing ↦ let same : [] ≡ ps = ground arith in subst (All Labelled) same tt
          | inl classes ↦
              settle_after-Labelled settle (start_scan rt lib reactor cleared).0
                (start_scan rt lib reactor cleared).1 l' ps
                (deliver_all-Labelled (reactor.during_scan l.world) cleared.adapter tt)
                (sym (integrity_poll-scanned settle l master classes) ∙ r)
        ]
      ]
