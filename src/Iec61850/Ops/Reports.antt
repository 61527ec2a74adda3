-- ===== src/Iec61850/Ops/Reports.antt =====
-- The answers of iec61850/ops.py say what the device said.
use mathlib.Core.Path.{subst}
use industrial_aiops_energy.Prelude.{
  codes, ℕ, ◌≡◌, ◌≢◌, ◌⊎◌, inl, inr, refl, sym, ap, ◌∙◌, arith, Bool, false, none, some, List, [],
  ◌∷◌, Text,
}
use industrial_aiops_energy.Python.{Runtime, Value, text, Result, ok}
use industrial_aiops_energy.Shared.{Shared, num_or_s}
use industrial_aiops_energy.Targets.{Target}
use industrial_aiops_energy.Waiting.{Clock}
use industrial_aiops_energy.Sessions.Action.{State}
use industrial_aiops_energy.Iec61850.Binding.{Binding, absent, integer, object, free_mms}
use industrial_aiops_energy.Iec61850.Browse.{reply, attempts, get_data_directory}
use industrial_aiops_energy.Iec61850.Browse.Explained.{Explained, get_data_directory-Explained}
use industrial_aiops_energy.Iec61850.Connection.{Dialer}
use industrial_aiops_energy.Iec61850.Read.{
  MmsBinding, Reading, value, no_reader, read_failed, no_value, access_failed, access_error,
  decode_mms, fc_value, read,
}
use industrial_aiops_energy.Iec61850.Read.Genuine.{read-value}
use industrial_aiops_energy.Iec61850.Ops.{
  Adapter, mms_library, BrowseReport, reference_required, ReadReport, error_of, value_of,
  brief_error, constraint_of, reference_of, browse_report, read_report, read_attribute,
  browse_named, read_named, iec61850_browse, iec61850_read,
}
use industrial_aiops_energy.Iec61850.Ops.Answers.{
  FromIed, answered-FromIed, Dialled, opened_connection,
}
use industrial_aiops_energy.Iec61850.Connection

module _ (dialer : Dialer) (import_pyiec61850 : Result Bool) (clock : Clock Adapter) (rt : Runtime)
    (sh : Shared) (lib : Binding) (mms : MmsBinding) (target : Target) where
  -- The children of a reference, as the levels of the model explain them.
  abbrev pub Browsed : Text → BrowseReport → State Adapter → Type 0
  Browsed ref r st' =
      (names : List Text) × (r ≡ browse_report rt sh lib mms target ref names)
      × Explained lib ref attempts false (ok names)
      × FromIed dialer import_pyiec61850 clock rt target (get_data_directory lib ref) names st'

  browse_named-Browsed :
      (ref : Text) (r : BrowseReport) (st st' : State Adapter)
      → browse_named rt sh lib mms target (mms_library dialer import_pyiec61850 clock) ref st
        ≡ some (ok r, st')
      → ((ref ≡ []) × (r ≡ reference_required) × (st' ≡ st)) ⊎ Browsed ref r st'
  browse_named-Browsed [] r st st' h = inl (refl, ground arith, ground arith)
  browse_named-Browsed (c ∷ s) r st st' h =
      let browse = get_data_directory lib (c ∷ s) in
      let (names, same, from) =
        answered-FromIed dialer import_pyiec61850 clock rt target sh lib mms browse
          (browse_report rt sh lib mms target (c ∷ s)) r st st' h in
      let given = ap (λ out. out.0) from.1 in
      inr (
        names,
        same,
        subst (Explained lib (c ∷ s) attempts false) given
            (get_data_directory-Explained lib (c ∷ s) []),
        from,
      )

  -- A browse that returns asks for a reference where that is blank, and then it made no call; else it
  -- reports the children that the model's levels explain: those of the first level that names any,
  -- or none, where a level succeeded and none names a child. They were read from the target on a
  -- connection whose dialling succeeded, and which was closed.
  pub iec61850_browse-Browsed :
      (reference : Text) (r : BrowseReport) (st st' : State Adapter)
      → iec61850_browse rt sh lib mms target
          (mms_library dialer import_pyiec61850 clock)
          reference
          st
        ≡ some (ok r, st')
      → ((reference_of reference ≡ []) × (r ≡ reference_required) × (st' ≡ st))
        ⊎ Browsed (reference_of reference) r st'
  unfolding iec61850_browse
  iec61850_browse-Browsed reference r st st' h =
      browse_named-Browsed (reference_of reference) r st st' h

  -- Reading the reference gave a value that the report carries: the payload of a call that succeeded,
  -- and no access error; it was freed.
  abbrev pub ValueRead : Text → Text → ReadReport → State Adapter → Type 0
  ValueRead ref fc r st' =
      (call : Text → Value → Result _) × (h : ℕ) × (lib.read_object ≡ some call)
      × (reply (call ref (fc_value rt mms fc)) ≡ some (some h))
      × (access_error rt mms h ≡ none)
      × (r.value ≡ num_or_s sh (decode_mms rt mms h) 200)
      × (st'.world.freed ≡ free_mms lib h [])

  -- s() of a text that is not empty is not empty.
  abbrev pub KeepsText : Type 0
  KeepsText = (c : ℕ) (s : Text) → sh.s (text (c ∷ s)) 160 ≢ []

  error_of-empty :
      (result : Reading)
      → KeepsText
      → brief_error sh (error_of rt result) ≡ []
      → (v : Value) × (result ≡ value v)
  unfolding error_of brief_error codes
  error_of-empty (value v) keeps h = (v, refl)
  error_of-empty no_reader keeps h = absurd (keeps _ _ h)
  error_of-empty (read_failed absent) keeps h = absurd (keeps _ _ h)
  error_of-empty (read_failed (integer code)) keeps h = absurd (keeps _ _ h)
  error_of-empty (read_failed (object name)) keeps h = absurd (keeps _ _ h)
  error_of-empty no_value keeps h = absurd (keeps _ _ h)
  error_of-empty (access_failed name) keeps h = absurd (keeps _ _ h)

  reported-ValueRead :
      (ref fc : Text) (result : Reading) (r : ReadReport) (st' : State Adapter)
      → KeepsText
      → r ≡ read_report rt sh lib mms target ref fc result
      → r.error ≡ []
      → read rt mms lib ref fc [] ≡ (result, st'.world.freed)
      → ValueRead ref fc r st'
  unfolding read_report value_of
  reported-ValueRead ref fc result r st' keeps told clean given =
      let silent : brief_error sh (error_of rt result) ≡ [] =
        sym (ap (λ x. x.error) told) ∙ clean in
      let (v, is_value) = error_of-empty result keeps silent in
      let (call, h, there, replied, fine, decoded, freed) =
        read-value rt mms lib ref fc v [] st'.world.freed
          (given ∙ ap (λ x. (x, st'.world.freed)) is_value) in
      (
        call,
        h,
        there,
        replied,
        fine,
        ap (λ x. x.value) told
            ∙ ap (λ x. num_or_s sh (value_of x) 200) is_value
            ∙ ap (λ x. num_or_s sh x 200) decoded,
        freed,
      )

  -- The connection to the target was dialled, and afterwards closed.
  abbrev pub DialledAndClosed : State Adapter → Type 0
  DialledAndClosed st' =
      Dialled dialer import_pyiec61850 clock rt target
      × (st'.world.conn
          ≡ Connection.close dialer (opened_connection dialer import_pyiec61850 clock rt target))

  read_named-ValueRead :
      (ref fc : Text) (r : ReadReport) (st st' : State Adapter)
      → KeepsText
      → read_named rt sh lib mms target (mms_library dialer import_pyiec61850 clock) ref fc st
        ≡ some (ok (some r), st')
      → r.error ≡ []
      → ValueRead ref (constraint_of fc) r st' × DialledAndClosed st'
  read_named-ValueRead [] fc r st st' keeps h clean = absurd (ground arith)
  read_named-ValueRead (c ∷ s) fc r st st' keeps h clean =
      let library = mms_library dialer import_pyiec61850 clock in
      let ref : Text = c ∷ s in
      let (result, same, (dialled, given, closed)) =
        answered-FromIed dialer import_pyiec61850 clock rt target sh lib mms
          (read_attribute rt sh lib mms target library ref (constraint_of fc))
          (λ result. some (read_report rt sh lib mms target ref (constraint_of fc) result)) (some r)
          st st' h in
      (
        reported-ValueRead ref (constraint_of fc) result r st' keeps (ground arith) clean
            (ground arith),
        (dialled, closed),
      )

  -- A read that returns a report without an error gives a value that the device gave: the reader was
  -- there, its call for the stripped reference and the constraint in upper case succeeded with a
  -- payload that was no access error, and the reported value is the decoded payload, which was
  -- freed. The connection to the target was dialled with success, and closed. This takes that s()
  -- makes no empty text of one that is not empty.
  pub iec61850_read-ValueRead :
      (reference fc : Text) (r : ReadReport) (st st' : State Adapter)
      → KeepsText
      → iec61850_read rt sh lib mms target
          (mms_library dialer import_pyiec61850 clock)
          reference
          fc
          st
        ≡ some (ok (some r), st')
      → r.error ≡ []
      → ValueRead (reference_of reference) (constraint_of fc) r st' × DialledAndClosed st'
  unfolding iec61850_read
  iec61850_read-ValueRead reference fc r st st' keeps h clean =
      read_named-ValueRead (reference_of reference) fc r st st' keeps h clean
