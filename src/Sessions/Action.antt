-- ===== src/Sessions/Action.antt =====
-- Actions of sessions.py on the protocol libraries. What a library does is a parameter; the calls
-- that are made of it are recorded.
pub mod Laws
use industrial_aiops_energy.Prelude.{ℕ, Bool, Option, none, some, List, [], ◌∷◌, ◌++◌, Text, ℤ}
use industrial_aiops_energy.Python.{Result, ok, raise, Exception, ot_connection_error, other}
use industrial_aiops_energy.Waiting.{Clock, wait_until}

-- A call of a protocol library, or of an adapter over one.
pub data Call : Type 0 where
  import_library : Call
  create_client on_new_station on_new_point start is_connected stop : Call
  add_connection : Text → ℕ → Call
  build_master_adapter : Text → ℕ → Option ℕ → ℕ → Call
  enable is_online shutdown : Call
  build_mms_adapter : Text → ℕ → Call
  connect : ℤ → Call
  close : Call

-- A library and the devices behind it, with a state `W`. A Bool is the reply to a question.
pub record Library (W : Type 0) : Type 0 where
  pub respond : Call → W → Result Bool × W
  pub clock : Clock W
  -- callable(getattr(client, name, None)) for on_new_station and on_new_point
  pub has_station_hook : Bool
  pub has_point_hook : Bool

pub record State (W : Type 0) : Type 0 where
  pub world : W
  pub calls : List Call

-- An action changes the state and returns or raises; `none` is a loop that does not end.
abbrev pub Run : Type 0 → Type 0 → Type 0
Run W A = State W → Option (Result A × State W)

-- except OTConnectionError: raise; except Exception as exc: raise f(exc)
abbrev pub translate_error : (Exception → Exception) → Exception → Exception
translate_error f (ot_connection_error m e p) = ot_connection_error m e p
translate_error f (other c m) = f (other c m)

abbrev pub translate_result : {A : Type 0} → (Exception → Exception) → Result A → Result A
translate_result f (ok a) = ok a
translate_result f (raise e) = raise (translate_error f e)

module _ {W A : Type 0} where
  abbrev pub return : A → Run W A
  return a st = some (ok a, st)

  abbrev pub throw : Exception → Run W A
  throw e st = some (raise e, st)

  -- try: m; finally: the rest, whose own exception is swallowed
  unfoldable pub finally_ : Run W Bool → Run W A → Run W A
  finally_ teardown m st = elim (m st) [
    | none ↦ none
    | some (r, st') ↦ elim (teardown st') [ none ↦ none | some (_, st'') ↦ some (r, st'') ]
  ]

  unfoldable pub translating : (Exception → Exception) → Run W A → Run W A
  translating f m st = elim (m st) [
    | none ↦ none
    | some (r, st') ↦ some (translate_result f r, st')
  ]

module _ {W A B : Type 0} where
  infixl 8 ◌>>=◌ ◌>>◌
  abbrev pub continue : (A → Run W B) → Result A → Run W B
  continue f (ok a) st = f a st
  continue f (raise e) st = some (raise e, st)

  abbrev pub ◌>>=◌ : Run W A → (A → Run W B) → Run W B
  ◌>>=◌ m f st = elim (m st) [ none ↦ none | some (r, st') ↦ continue f r st' ]

  abbrev pub ◌>>◌ : Run W A → Run W B → Run W B
  m >> n = m >>= λ _. n

module _ {W : Type 0} (lib : Library W) where
  abbrev pub perform : Call → State W → Result Bool × State W
  perform c st =
      let (r, w) = lib.respond c st.world in (r, record { world = w; calls = st.calls ++ c ∷ [] })

  abbrev pub call : Call → Run W Bool
  call c st = some (perform c st)

  -- The clock beside the record of calls.
  abbrev pub state_clock : Clock (State W)
  state_clock = record {
    monotonic = λ st. lib.clock.monotonic st.world;
    sleep = λ d st. record st { world = lib.clock.sleep d st.world };
  }

  -- _wait_until on a question to the library, at its default pause of 50 ms
  unfoldable pub wait_for : Call → ℤ → Run W Bool
  wait_for question timeout st =
      elim (wait_until state_clock (perform question) 50_000 timeout st) [
        | none ↦ none
        | some (answer, st') ↦ some (ok answer, st')
      ]
