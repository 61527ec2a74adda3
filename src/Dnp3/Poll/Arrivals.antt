-- ===== src/Dnp3/Poll/Arrivals.antt =====
-- Whether the channel of the adapter of dnp3/driver.py is open behind callbacks that arrive.
use industrial_aiops_energy.Prelude.{
  ◌≡◌, ◌↔◌, ◌⊎◌, All, arith, true, some, List, [], ◌∷◌, ◌++◌, map, refl, ap, ◌∙◌, sym, Option-cases,
  inl, inr,
}
use industrial_aiops_energy.Python.{Runtime}
use industrial_aiops_energy.Dnp3.Adapter
use industrial_aiops_energy.Dnp3.Adapter.{
  Binding, Callback, LinkLayer, Happening, callback, deliver, run,
}
use industrial_aiops_energy.Dnp3.Adapter.Online.{
  Silent, LastReached, run_keeps_channel, run-LastReached, LastReached-run,
}
use industrial_aiops_energy.Dnp3.Poll.{deliver_all}

module _ (rt : Runtime) (lib : Binding) where
  deliver_all-run :
      (cs : List Callback) (a : Adapter.Adapter)
      → deliver_all rt lib cs a ≡ run rt lib (map callback cs) a
  unfolding deliver_all run
  deliver_all-run [] a = refl
  deliver_all-run (c ∷ cs) a = deliver_all-run cs (deliver rt lib c a)

  pub deliver_all-append :
      (xs ys : List Callback) (a : Adapter.Adapter)
      → deliver_all rt lib (xs ++ ys) a ≡ deliver_all rt lib ys (deliver_all rt lib xs a)
  unfolding deliver_all
  deliver_all-append [] ys a = refl
  deliver_all-append (x ∷ xs) ys a = deliver_all-append xs ys (deliver rt lib x a)

  -- No change of the channel is among the callbacks, or the last one is to OPEN.
  abbrev pub StayedOpen : List Callback → Type 0
  StayedOpen cs = All Silent (map callback cs) ⊎ LastReached lib.open_state (map callback cs)

  -- From an open channel, the channel is open behind the callbacks exactly if it stayed so.
  pub deliver_all-StayedOpen :
      (cs : List Callback) (a : Adapter.Adapter)
      → a.channel_state ≡ some lib.open_state
      → ((deliver_all rt lib cs a).channel_state ≡ some lib.open_state) ↔ StayedOpen cs
  deliver_all-StayedOpen cs a opened =
      let hs = map callback cs in
      let same = ap (λ b. b.channel_state) (deliver_all-run cs a) in
      (
        λ after. elim (run-LastReached rt lib hs a lib.open_state (sym same ∙ after)) [
          | inl (silent, _) ↦ inl silent
          | inr reached ↦ inr reached
        ],
        λ stayed. elim stayed [
          | inl silent ↦ same ∙ (run_keeps_channel rt lib hs a silent ∙ opened)
          | inr reached ↦ same ∙ LastReached-run rt lib hs a lib.open_state reached
        ],
      )

  pub is_online-open :
      (a : Adapter.Adapter)
      → (Adapter.is_online lib a ≡ true) ↔ (a.channel_state ≡ some lib.open_state)
  unfolding Adapter.is_online Adapter.channel_is_open
  is_online-open a = (
    (λ online. elim (Option-cases a.channel_state) [
      | inl unknown ↦ absurd (ground arith)
      | inr (state, e) ↦ ground arith
    ]),
    (λ opened. ground arith),
  )

  pub link_status-open :
      (a : Adapter.Adapter)
      → ((Adapter.link_status lib a).channel_open ≡ true) ↔ (a.channel_state ≡ some lib.open_state)
  unfolding Adapter.link_status Adapter.channel_is_open
  link_status-open a = (
    (λ online. elim (Option-cases a.channel_state) [
      | inl unknown ↦ absurd (ground arith)
      | inr (state, e) ↦ ground arith
    ]),
    (λ opened. ground arith),
  )
