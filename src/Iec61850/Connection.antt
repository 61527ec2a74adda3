-- ===== src/Iec61850/Connection.antt =====
-- iaiops_energy/connectors/iec61850/driver.py: connect with its timeouts, and close.
pub mod Closing
use industrial_aiops_energy.Prelude.{
  ℕ, zero, suc, ◌/◌, ltb, Bool, true, false, Option, none, some, List, [], ◌∷◌, ◌++◌, Text, codes,
  ℤ, pos, negsuc, if◌then◌else◌,
}
use industrial_aiops_energy.Python.{Result, ok, raise, Exception, other, connection_error}
use industrial_aiops_energy.Iec61850.Binding.{Return, ErrorCode, integer, is_nonzero, unwrap}

-- A call of the binding on the connection; a timeout is in milliseconds.
pub data ConnectionCall : Type 0 where
  create close_connection destroy : ConnectionCall
  set_connect_timeout set_request_timeout : ℕ → ConnectionCall
  dial : Text → ℕ → ConnectionCall

-- The binding: what IedConnection_create raises, which of the setters and closers are callable, and
-- what IedConnection_connect returns.
pub record Dialer : Type 0 where
  pub create_raises : Option Exception
  pub has_connect_timeout : Bool
  pub has_request_timeout : Bool
  pub has_close : Bool
  pub has_destroy : Bool
  pub connect_result : Text → ℕ → Result Return

-- The adapter: whether self._conn is set, and the calls made.
pub record Connection : Type 0 where
  pub is_created : Bool
  pub calls : List ConnectionCall

-- timeout_s is not None and timeout_s > 0, and then int(max(1.0, timeout_s * 1000.0))
unfoldable pub timeout_ms : Option ℤ → Option ℕ
timeout_ms none = none
timeout_ms (some (negsuc n)) = none
timeout_ms (some (pos zero)) = none
timeout_ms (some (pos (suc n))) = let ms = suc n / 1000 in some (if ltb ms 1 then 1 else ms)

abbrev pub when_callable : Bool → ConnectionCall → List ConnectionCall
when_callable true c = c ∷ []
when_callable false c = []

-- _apply_timeouts, which swallows what a setter raises
unfoldable pub apply_timeouts : Dialer → Option ℕ → List ConnectionCall
apply_timeouts lib none = []
apply_timeouts lib (some ms) =
    when_callable lib.has_connect_timeout (set_connect_timeout ms)
    ++ when_callable lib.has_request_timeout (set_request_timeout ms)

-- isinstance(code, int) and code != 0
abbrev pub is_error_code : ErrorCode → Bool
is_error_code (integer c) = is_nonzero c
is_error_code c = false

-- What connect makes of the result of dialling.
unfoldable pub dialled : Result Return → Result Bool
dialled (raise e) = raise e
dialled (ok r) =
    if is_error_code (unwrap r).1
    then raise (other connection_error (codes "IedConnection_connect error"))
    else ok true

module _ (lib : Dialer) where
  -- connect
  unfoldable pub connect : Text → ℕ → Option ℤ → Connection → Result Bool × Connection
  connect host port timeout conn = elim lib.create_raises [
    | some e ↦ (raise e, conn)
    | none ↦ (
      dialled (lib.connect_result host port),
      record {
        is_created = true;
        calls =
            conn.calls ++ create ∷ (apply_timeouts lib (timeout_ms timeout) ++ dial host port ∷ []);
      },
    )
  ]

  -- close, which swallows what its calls raise
  unfoldable pub close : Connection → Connection
  close conn = elim conn.is_created [
    | false ↦ conn
    | true ↦ record conn {
      calls =
          conn.calls
          ++ (when_callable lib.has_close close_connection
              ++ when_callable lib.has_destroy destroy);
    }
  ]
