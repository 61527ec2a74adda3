-- ===== src/Iec61850/Ops/Answers.antt =====
-- What an answer of iec61850/ops.py rests on: a connection that was dialled, read and closed.
use mathlib.Core.Path.{subst}
use industrial_aiops_energy.Prelude.{
  ◌≡◌, inl, inr, refl, ap, ◌∙◌, arith, Bool, true, none, some, [], ◌∷◌, ◌++◌, pos, Bool-cases,
  Option-cases,
}
use industrial_aiops_energy.Python.{Runtime, Result, ok}
use industrial_aiops_energy.Shared.{Shared}
use industrial_aiops_energy.Targets.{Target, or_default}
use industrial_aiops_energy.Waiting.{Clock}
use industrial_aiops_energy.Sessions.Action.{connect, close, State, return, ◌>>=◌, perform}
use industrial_aiops_energy.Sessions.Action.Laws.{bind-ok}
use industrial_aiops_energy.Sessions.Managers.{is_blank, build_iec61850_client}
use industrial_aiops_energy.Sessions.Managers.Endings.{iec61850_session-ok}
use industrial_aiops_energy.Iec61850.Binding.{Binding}
use industrial_aiops_energy.Iec61850.Connection
use industrial_aiops_energy.Iec61850.Connection.{
  Connection, Dialer, create, dial, timeout_ms, apply_timeouts, dialled,
}
use industrial_aiops_energy.Iec61850.Read.{MmsBinding}
use industrial_aiops_energy.Iec61850.Ops.{
  Adapter, new_adapter, answer, mms_library, Freeing, freeing, in_session,
}

module _ (dialer : Dialer) (import_pyiec61850 : Result Bool) (clock : Clock Adapter) (rt : Runtime)
    (target : Target) where
  new_adapter-built :
      (b : Bool) (st opened : State Adapter)
      → build_iec61850_client (mms_library dialer import_pyiec61850 clock) rt target st
        ≡ some (ok b, opened)
      → opened.world ≡ new_adapter target.host (or_default target.port 102)
  unfolding build_iec61850_client answer
  new_adapter-built b st opened h = elim (Bool-cases (is_blank target.host)) [
    | inl blank ↦ absurd (ground arith)
    | inr named ↦ ground arith
  ]

  -- The connection behind a successful dialling.
  abbrev pub opened_connection : Connection
  opened_connection = record {
    is_created = true;
    calls =
        create
        ∷ (apply_timeouts dialer (timeout_ms (some (pos 10_000_000)))
            ++ dial target.host (or_default target.port 102) ∷ []);
  }

  -- Dialling the target succeeded.
  abbrev pub Dialled : Type 0
  Dialled =
      (dialer.create_raises ≡ none)
      × (dialled (dialer.connect_result target.host (or_default target.port 102)) ≡ ok true)

  connect-Dialled :
      (reply : Bool) (opened up : State Adapter)
      → opened.world ≡ new_adapter target.host (or_default target.port 102)
      → perform (mms_library dialer import_pyiec61850 clock) (connect (pos 10_000_000)) opened
        ≡ (ok reply, up)
      → Dialled
        × (up.world ≡ record {
          host = target.host;
          port = or_default target.port 102;
          conn = opened_connection;
          freed = [];
        })
  unfolding answer new_adapter Connection.connect dialled
  connect-Dialled reply opened up built h = elim (Option-cases dialer.create_raises) [
    | inr (e, raised) ↦ absurd (ground arith)
    | inl created ↦ ((created, ground arith), ground arith)
  ]

  -- A call of the adapter gave this value on a connection to the target that was dialled; it started
  -- with nothing to free, and afterwards the connection was closed and the rest freed.
  abbrev pub FromIed : {A : Type 0} → Freeing A → A → State Adapter → Type 0
  FromIed f a st' =
      Dialled
      × (f [] ≡ (ok a, st'.world.freed))
      × (st'.world.conn ≡ Connection.close dialer opened_connection)

  freeing-ok :
      {A : Type 0} (f : Freeing A) (a : A) (up last : State Adapter)
      → freeing f up ≡ some (ok a, last)
      → (f up.world.freed ≡ (ok a, last.world.freed)) × (last.world.conn ≡ up.world.conn)
  freeing-ok f a up last h = (ground arith, ground arith)

  close-conn :
      (last : State Adapter)
      → ((perform (mms_library dialer import_pyiec61850 clock) close last).1.world.conn
          ≡ Connection.close dialer last.world.conn)
        × ((perform (mms_library dialer import_pyiec61850 clock) close last).1.world.freed
            ≡ last.world.freed)
  unfolding answer
  close-conn last = (refl, refl)

  module _ (sh : Shared) (lib : Binding) (mms : MmsBinding) where
    pub in_session-FromIed :
        {A : Type 0} (f : Freeing A) (a : A) (st st' : State Adapter)
        → in_session rt sh lib mms target (mms_library dialer import_pyiec61850 clock) f st
          ≡ some (ok a, st')
        → FromIed f a st'
    in_session-FromIed f a st st' h =
        let library = mms_library dialer import_pyiec61850 clock in
        let (b, opened, up, last, reply, build, dialling, ran, closed) =
          iec61850_session-ok library rt target (pos 10_000_000) (freeing f) a st st' h in
        let (dialled_ok, world) =
          connect-Dialled reply opened up (new_adapter-built b st opened build) dialling in
        let (given, kept) = freeing-ok f a up last ran in
        let (shut, freed) = close-conn last in
        let empty : up.world.freed ≡ [] = ap (λ w. w.freed) world in
        let conn : last.world.conn ≡ opened_connection = kept ∙ ap (λ w. w.conn) world in
        let last_freed : st'.world.freed ≡ last.world.freed =
          ap (λ s. s.world.freed) closed ∙ freed in
        (
          dialled_ok,
          ground arith,
          ap (λ s. s.world.conn) closed ∙ (shut ∙ ap (λ c. Connection.close dialer c) conn),
        )

    -- The same for an operation that makes its answer of the value.
    pub answered-FromIed :
        {A B : Type 0} (f : Freeing A) (g : A → B) (b : B) (st st' : State Adapter)
        → (in_session rt sh lib mms target (mms_library dialer import_pyiec61850 clock) f >>= λ a.
              return (g a))
            st
          ≡ some (ok b, st')
        → (a : A) × (b ≡ g a) × FromIed f a st'
    answered-FromIed f g b st st' h =
        let library = mms_library dialer import_pyiec61850 clock in
        let (a, mid, run, e) =
          bind-ok (in_session rt sh lib mms target library f) (λ a. return (g a)) st st' b h in
        let same : mid ≡ st' = ground arith in
        (a, ground arith, subst (FromIed f a) same (in_session-FromIed f a st mid run))
