-- ===== src/Sessions/Messages.antt =====
-- The errors that sessions.py raises, with their texts.
use industrial_aiops_energy.Prelude.{
  ℕ, ◌-◌, leb, ◌&&◌, ◌∷◌, ◌++◌, map, take, Text, codes, strip, ℤ, if◌then◌else◌,
}
use industrial_aiops_energy.Python.{Runtime, Exception, ot_connection_error, other}
use industrial_aiops_energy.Targets.{Target}

-- upper() of a text in ASCII, as the three protocol names are
unfoldable pub upper : Text → Text
upper s = map (λ c. if leb b'a' c && leb c b'z' then c - 32 else c) s

-- str(exc)
abbrev pub message_of : Exception → Text
message_of (ot_connection_error m e p) = m
message_of (other c m) = m

module _ (rt : Runtime) where
  -- f"{host}:{port}"
  unfoldable pub where_text : Text → ℕ → Text
  where_text host port = host ++ b':' ∷ rt.decimal port

  -- _translate_energy
  unfoldable pub translate_energy : Target → Text → ℕ → Exception → Exception
  unfolding codes upper where_text strip
  translate_energy target protocol port exc =
      ot_connection_error
        (upper protocol
          ++ (codes " operation on '"
              ++ (target.name
                  ++ (codes "' ("
                      ++ (where_text target.host port
                          ++ (codes ") failed: "
                              ++ (take 200 (strip (message_of exc))
                                  ++ codes
                                      ". Check host/port/addressing and that the device is reachable. Preview — validate against a real RTU/IED or a protocol simulator.")))))))
        (where_text target.host port) protocol

  -- The session was asked for an endpoint of another protocol.
  unfoldable pub wrong_protocol : Target → Text → Exception
  unfolding codes
  wrong_protocol target expected =
      ot_connection_error
        (codes "Endpoint '"
          ++ (target.name
              ++ (codes "' is protocol '"
                  ++ (target.protocol ++ (codes "', not " ++ (expected ++ codes "."))))))
        target.name target.protocol

  -- The connection did not come up in time: the protocol's label, what failed, the likely causes.
  unfoldable pub not_in_time : Target → Text → Text → Text → Text → ℕ → ℤ → Exception
  unfolding codes where_text
  not_in_time target protocol label failure causes port timeout =
      ot_connection_error
        (label
          ++ (codes " '"
              ++ (target.name
                  ++ (codes "' ("
                      ++ (where_text target.host port
                          ++ (codes ") did not "
                              ++ (failure
                                  ++ (codes " within "
                                      ++ (rt.seconds timeout
                                          ++ (codes "s (" ++ (causes ++ codes ").")))))))))))
        target.host protocol

-- The optional package is not there.
unfoldable pub not_installed : Target → Text → Text → Exception
not_installed target protocol message = ot_connection_error message target.name protocol

-- The endpoint has no host: the protocol's label and what to add.
unfoldable pub no_host : Target → Text → Text → Text → Exception
unfolding codes
no_host target protocol label advice =
    ot_connection_error
      (label
        ++ (codes " endpoint '"
            ++ (target.name ++ (codes "' has no host. Add 'host: <ip>' (" ++ advice))))
      target.name protocol
