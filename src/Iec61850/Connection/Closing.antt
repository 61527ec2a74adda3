-- ===== src/Iec61850/Connection/Closing.antt =====
-- A connection of iec61850/driver.py that was created is bounded and closed.
use mathlib.Core.Path.{subst}
use industrial_aiops_energy.Prelude.{
  append_assoc, ℕ, zero, suc, Bool, ltb, ◌/◌, List, sym, ap, ◌∙◌, Bool-cases, ◌+◌, ◌*◌, ◌≤◌, ◌<◌,
  ◌≡◌, ◌⊎◌, inl, inr, refl, arith, true, false, none, some, [], ◌∷◌, ◌++◌, Text, codes, pos, negsuc,
  Option-cases,
}
use industrial_aiops_energy.Python.{Result, ok, raise, Exception, other, connection_error}
use industrial_aiops_energy.Iec61850.Binding.{
  ErrorCode, absent, integer, object, Return, pair, one, empty, code, bare, unwrap,
}
use industrial_aiops_energy.Iec61850.Connection.{
  ConnectionCall, create, close_connection, destroy, set_connect_timeout, set_request_timeout, dial,
  Dialer, Connection, timeout_ms, apply_timeouts, dialled, connect, close,
}

-- A code of a connect that is no int other than 0.
abbrev pub NoError : ErrorCode → Type 0
NoError absent = Unit
NoError (integer c) = c ≡ pos 0
NoError (object name) = Unit

abbrev pub Connected : Return → Type 0
Connected (pair payload err) = NoError err
Connected (one payload) = Unit
Connected empty = Unit
Connected (code c) = c ≡ pos 0
Connected (bare payload) = Unit

-- What a connect gives for what the dialling returned or raised.
abbrev pub Reported : Result Return → Result Bool → Type 0
Reported (raise e) out = out ≡ raise e
Reported (ok r) out =
    (Connected r × (out ≡ ok true))
    ⊎ ((¬ Connected r)
        × (out ≡ raise (other connection_error (codes "IedConnection_connect error"))))

dialled-Reported : (r : Result Return) → Reported r (dialled r)
unfolding dialled unwrap
dialled-Reported (raise e) = refl
dialled-Reported (ok (pair payload absent)) = inl (tt, refl)
dialled-Reported (ok (pair payload (object name))) = inl (tt, refl)
dialled-Reported (ok (pair payload (integer (pos zero)))) = inl (refl, refl)
dialled-Reported (ok (pair payload (integer (pos (suc n))))) = inr ((λ h. ground arith), refl)
dialled-Reported (ok (pair payload (integer (negsuc n)))) = inr ((λ h. ground arith), refl)
dialled-Reported (ok (one payload)) = inl (tt, refl)
dialled-Reported (ok empty) = inl (tt, refl)
dialled-Reported (ok (code (pos zero))) = inl (refl, refl)
dialled-Reported (ok (code (pos (suc n)))) = inr ((λ h. ground arith), refl)
dialled-Reported (ok (code (negsuc n))) = inr ((λ h. ground arith), refl)
dialled-Reported (ok (bare payload)) = inl (tt, refl)

-- Whole milliseconds of a time in microseconds, at least one.
abbrev pub Milliseconds : ℕ → ℕ → Type 0
Milliseconds t ms = (1 ≤ ms) × (t < (ms + 1) * 1000) × ((ms * 1000 ≤ t) ⊎ (ms ≡ 1))

timeout_ms-Milliseconds :
    (n : ℕ) → (ms : ℕ) × (timeout_ms (some (pos (suc n))) ≡ some ms) × Milliseconds (suc n) ms
unfolding timeout_ms
timeout_ms-Milliseconds n = elim (Bool-cases (ltb (suc n / 1000) 1)) [
  | inl short ↦ (1, ground arith, (omega arith, ground arith, inr refl))
  | inr long ↦ (suc n / 1000, ground arith, (ground arith, ground arith, inl (ground arith)))
]

close-created :
    (lib : Dialer) (calls : List ConnectionCall)
    → lib.has_close ≡ true
    → lib.has_destroy ≡ true
    → (close lib (record { is_created = true; calls = calls })).calls
      ≡ calls ++ close_connection ∷ destroy ∷ []
unfolding close
close-created lib calls closes destroys = ground arith

module _ (lib : Dialer) (host : Text) (port n : ℕ) (conn : Connection) where
  abbrev pub after_connect : Result Bool × Connection
  after_connect = connect lib host port (some (pos (suc n))) conn

  -- Nothing was called where the creation raised. Else the calls are the creation, the two timeouts,
  -- the dialling, the closing and the destruction, and the dialling is what is reported.
  abbrev pub BoundedAndClosed : Type 0
  BoundedAndClosed =
      ((e : Exception) × (lib.create_raises ≡ some e)
        × (after_connect.0 ≡ raise e)
        × ((close lib after_connect.1).calls ≡ conn.calls))
      ⊎ ((ms : ℕ) × (lib.create_raises ≡ none)
          × Milliseconds (suc n) ms
          × Reported (lib.connect_result host port) after_connect.0
          × ((close lib after_connect.1).calls
              ≡ conn.calls
                ++ create
                  ∷ set_connect_timeout ms
                  ∷ set_request_timeout ms
                  ∷ dial host port
                  ∷ close_connection
                  ∷ destroy
                  ∷ []))

  connect-created :
      (ms : ℕ)
      → lib.create_raises ≡ none
      → timeout_ms (some (pos (suc n))) ≡ some ms
      → lib.has_connect_timeout ≡ true
      → lib.has_request_timeout ≡ true
      → (after_connect.0 ≡ dialled (lib.connect_result host port))
        × (after_connect.1 ≡ record {
          is_created = true;
          calls =
              conn.calls
              ++ create ∷ set_connect_timeout ms ∷ set_request_timeout ms ∷ dial host port ∷ [];
        })
  unfolding connect apply_timeouts
  connect-created ms created timed connects requests = (ground arith, ground arith)

  -- On an adapter that has no connection, with a timeout that is positive and a binding that has the
  -- two setters, the closing and the destruction, a connect and then a close leave nothing open,
  -- whatever the dialling gives. Where the creation raises, no call is made. Else both timeouts are
  -- set to the timeout's whole milliseconds, at least one, before the dialling, and the connection is
  -- closed and destroyed; the connect returns exactly where the dialling does, with no code that is
  -- an int other than 0, and raises else.
  pub connect-close :
      conn.is_created ≡ false
      → lib.has_connect_timeout ≡ true
      → lib.has_request_timeout ≡ true
      → lib.has_close ≡ true
      → lib.has_destroy ≡ true
      → BoundedAndClosed
  unfolding connect close
  connect-close fresh connects requests closes destroys = elim (Option-cases lib.create_raises) [
    | inr (e, raised) ↦ inl (e, raised, ground arith, ground arith)
    | inl created ↦
        let (ms, timed, whole) = timeout_ms-Milliseconds n in
        let (out, made) = connect-created ms created timed connects requests in
        inr (
          ms,
          created,
          whole,
          subst (Reported (lib.connect_result host port)) (sym out)
              (dialled-Reported (lib.connect_result host port)),
          ap (λ c. (close lib c).calls) made
              ∙ (close-created lib _ closes destroys
                  ∙ append_assoc conn.calls _ (close_connection ∷ destroy ∷ [])),
        )
  ]
