-- ===== src/Sessions/Managers/Totality.antt =====
-- The sessions of sessions.py end, whatever the library and the devices do.
use industrial_aiops_energy.Prelude.{
  Bool, true, false, none, some, ◌≡◌, ◌≢◌, text_eq, refl, ℤ, codes, arith, Option-cases, Bool-cases,
  inl, inr,
}
use industrial_aiops_energy.Python.{Runtime, Result, ok, raise, Exception}
use industrial_aiops_energy.Targets.{Target, or_default}
use industrial_aiops_energy.Waiting.{ClockLaws, NeverBack}
use industrial_aiops_energy.Sessions.Action.{
  Call, is_connected, is_online, stop, start, enable, shutdown, connect, close, Library, State, Run,
  throw, finally_, translating, translate_result, ◌>>=◌, ◌>>◌, call, wait_for,
}
use industrial_aiops_energy.Sessions.Action.Laws.{wait_for_total}
use industrial_aiops_energy.Sessions.Messages.{translate_energy, wrong_protocol}
use industrial_aiops_energy.Sessions.Managers.Endings.{managed, polled}
use industrial_aiops_energy.Sessions.Managers.{
  when_up, iec104_late, dnp3_late, build_iec104_client, build_dnp3_client, build_iec61850_client,
  register_iec104_discovery, iec104_session, dnp3_session, iec61850_session,
}

-- The action returns or raises from every state.
abbrev pub Ends : {W A : Type 0} → Run W A → Type 0
Ends {W} {A} m = (st : State W) → (out : Result A × State W) × (m st ≡ some out)

throw-Ends : {W A : Type 0} (e : Exception) → Ends {W = W} {A = A} (throw e)
throw-Ends e st = ((raise e, st), refl)

call-Ends : {W : Type 0} (lib : Library W) (c : Call) → Ends (call lib c)
call-Ends lib c st = (_, refl)

module _ {W A B : Type 0} (m : Run W A) (f : A → Run W B) where
  after :
      {st : State W} (r : Result A) (mid : State W)
      → m st ≡ some (r, mid)
      → ((a : A) → Ends (f a))
      → (out : Result B × State W) × ((m >>= f) st ≡ some out)
  after (ok a) mid e hf = let (out, e') = hf a mid in (out, ground arith)
  after (raise x) mid e hf = ((raise x, mid), ground arith)

  bind-Ends : Ends m → ((a : A) → Ends (f a)) → Ends (m >>= f)
  bind-Ends hm hf st = let ((r, mid), e) = hm st in after r mid e hf

module _ {W A : Type 0} where
  finally_-Ends : (t : Run W Bool) (m : Run W A) → Ends t → Ends m → Ends (finally_ t m)
  unfolding finally_
  finally_-Ends t m ht hm st =
      let ((r, mid), e) = hm st in let ((q, last), e') = ht mid in ((r, last), ground arith)

  translating-Ends : (f : Exception → Exception) (m : Run W A) → Ends m → Ends (translating f m)
  unfolding translating
  translating-Ends f m hm st =
      let ((r, mid), e) = hm st in ((translate_result f r, mid), ground arith)

  when_up-Ends :
      (body : Run W A) (late : Exception) → Ends body → (up : Bool) → Ends (when_up body late up)
  when_up-Ends body late hb true = hb
  when_up-Ends body late hb false = throw-Ends late

module _ {W : Type 0} (lib : Library W) (rt : Runtime) (target : Target) where
  -- The builders have no loop.
  some-Ends : {A : Type 0} (m : Run W A) → ((st : State W) → m st ≢ none) → Ends m
  some-Ends m h st = elim (Option-cases (m st)) [
    | inl hangs ↦ absurd (h st hangs)
    | inr (out, e) ↦ (out, e)
  ]

  build_iec104_client-Ends : Ends (build_iec104_client lib rt target)
  unfolding build_iec104_client register_iec104_discovery
  build_iec104_client-Ends = some-Ends (build_iec104_client lib rt target) (λ st. ground arith)

  build_dnp3_client-Ends : Ends (build_dnp3_client lib rt target)
  unfolding build_dnp3_client
  build_dnp3_client-Ends = some-Ends (build_dnp3_client lib rt target) (λ st. ground arith)

  build_iec61850_client-Ends : Ends (build_iec61850_client lib rt target)
  unfolding build_iec61850_client
  build_iec61850_client-Ends = some-Ends (build_iec61850_client lib rt target) (λ st. ground arith)

module _ {W A : Type 0} (lib : Library W) where
  managed-Ends :
      (c : Call) (pre : Run W Bool) (inner : Run W A) (tr : Exception → Exception)
      → Ends pre
      → Ends inner
      → Ends (managed lib c pre inner tr)
  managed-Ends c pre inner tr hp hi =
      bind-Ends pre (λ _. finally_ (call lib c) (translating tr inner)) hp
        (λ b.
          finally_-Ends (call lib c) (translating tr inner) (call-Ends lib c)
            (translating-Ends tr inner hi))

  polled-Ends :
      (timeout : ℤ) (body : Run W A) (opening question : Call) (late : Exception)
      → ClockLaws lib.clock
      → NeverBack lib.clock (lib.respond question)
      → Ends body
      → Ends (call lib opening >> polled lib timeout body question late)
  polled-Ends timeout body opening question late laws forward ends =
      bind-Ends (call lib opening) (λ _. polled lib timeout body question late)
        (call-Ends lib opening)
        (λ b.
          bind-Ends (wait_for lib question timeout) (when_up body late)
            (λ st.
              let (answer, up, e) = wait_for_total lib question timeout st laws forward in
              ((ok answer, up), e))
            (when_up-Ends body late ends))

module _ {W A : Type 0} (lib : Library W) (rt : Runtime) (target : Target) (timeout : ℤ)
    (body : Run W A) where
  -- A DNP3 session ends from every state, with a result or an exception, if its body does: with a
  -- clock that a sleep moves by its time and that asking does not move back, the wait for the
  -- outstation runs out.
  pub dnp3_session-Ends :
      ClockLaws lib.clock
      → NeverBack lib.clock (lib.respond is_online)
      → Ends body
      → Ends (dnp3_session lib rt target timeout body)
  unfolding dnp3_session
  dnp3_session-Ends laws forward ends st =
      elim (Bool-cases (text_eq target.protocol (codes "dnp3"))) [
        | inr other ↦ ((raise (wrong_protocol rt target (codes "dnp3")), st), ground arith)
        | inl fits ↦
            rw (dnp3_session, fits)
              (managed-Ends lib shutdown (build_dnp3_client lib rt target)
                (call lib enable >> polled lib timeout body is_online (dnp3_late rt target timeout))
                (translate_energy rt target (codes "dnp3") (or_default target.port 20000))
                (build_dnp3_client-Ends lib rt target)
                (polled-Ends lib timeout body enable is_online (dnp3_late rt target timeout) laws
                  forward ends)
                st)
      ]

  -- An IEC 104 session ends from every state, with a result or an exception, if its body does: with
  -- a clock that a sleep moves by its time and that asking does not move back, the wait for the
  -- connection runs out.
  pub iec104_session-Ends :
      ClockLaws lib.clock
      → NeverBack lib.clock (lib.respond is_connected)
      → Ends body
      → Ends (iec104_session lib rt target timeout body)
  unfolding iec104_session
  iec104_session-Ends laws forward ends st =
      elim (Bool-cases (text_eq target.protocol (codes "iec104"))) [
        | inr other ↦ ((raise (wrong_protocol rt target (codes "iec104")), st), ground arith)
        | inl fits ↦
            let translate =
              translate_energy rt target (codes "iec104") (or_default target.port 2404) in
            let build = build_iec104_client lib rt target in
            rw (iec104_session, fits)
              (managed-Ends lib stop (translating translate build)
                (call lib start
                  >> polled lib timeout body is_connected (iec104_late rt target timeout))
                translate
                (translating-Ends translate build (build_iec104_client-Ends lib rt target))
                (polled-Ends lib timeout body start is_connected (iec104_late rt target timeout)
                  laws forward ends)
                st)
      ]

  -- An IEC 61850 session has no wait of its own.
  pub iec61850_session-Ends : Ends body → Ends (iec61850_session lib rt target timeout body)
  unfolding iec61850_session
  iec61850_session-Ends ends st = elim (Bool-cases (text_eq target.protocol (codes "iec61850"))) [
    | inr other ↦ ((raise (wrong_protocol rt target (codes "iec61850")), st), ground arith)
    | inl fits ↦
        rw (iec61850_session, fits)
          (managed-Ends lib close (build_iec61850_client lib rt target)
            (call lib (connect timeout) >> body)
            (translate_energy rt target (codes "iec61850") (or_default target.port 102))
            (build_iec61850_client-Ends lib rt target)
            (bind-Ends (call lib (connect timeout)) (λ _. body) (call-Ends lib (connect timeout))
              (λ b. ends))
            st)
  ]
