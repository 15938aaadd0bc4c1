-- ===== src/Connector/Config.antt =====
-- `_config` of connectors/opcua/connector.py.
use live_streaming_data_pipe.Base.{ℕ, Text, codes, Option, none, some, List, [], ◌∷◌}
use live_streaming_data_pipe.Base.Int.{ℤ}
use live_streaming_data_pipe.Base.Strip.{stripped_parts}
use live_streaming_data_pipe.Base.Exec.{Exc, system_exit, Result, ok, err}
use live_streaming_data_pipe.Json.{Value, Loaded, parsed, decode_error, failed, Py}
use live_streaming_data_pipe.Sources.{Numbers}

-- The environment of a process.
abbrev pub Environ : Type 0
Environ = Text → Option Text

abbrev pub or_default : Text → Option Text → Text
or_default d none = d
or_default d (some v) = v

-- `os.getenv(k, d)`
abbrev pub getenv : Environ → Text → Text → Text
getenv env k d = or_default d (env k)

abbrev pub and_then : {A B : Type 0} → Result A → (A → Result B) → Result B
and_then (ok a) f = f a
and_then (err e) f = err e

abbrev pub exit_with : Text → Exc
exit_with message = record { kind = system_exit; name = codes "SystemExit"; message = message }

-- The dictionary that `_config` returns.
pub record ConnectorConfig : Type 0 where
  pub pipeline_id : Text
  pub endpoint : Text
  pub node_ids : List Text
  pub node_names : Value
  pub publishing_interval_ms : ℤ
  pub connection_check_s : ℕ
  pub connect_timeout_s : ℕ
  pub health_port : ℤ
  pub staleness_threshold_s : ℕ

-- `text or "{}"`
abbrev pub or_braces : Text → Text
or_braces [] = codes "{}"
or_braces (c ∷ s) = c ∷ s

abbrev pub names_of : Loaded → Result Value
names_of (parsed v) = ok v
names_of decode_error = err (exit_with (codes "OPCUA_NODE_NAMES_JSON is not valid JSON"))
names_of (failed e) = err e

module _ (py : Py) (ns : Numbers) where
  -- the `return` of `_config`
  abbrev pub with_names : Environ → Text → List Text → Value → Result ConnectorConfig
  with_names env endpoint node_ids names =
      and_then (ns.int_of (getenv env (codes "OPCUA_PUBLISHING_INTERVAL_MS") (codes "500")))
        λ interval.
          and_then (ns.float_of (getenv env (codes "OPCUA_CONNECTION_CHECK_S") (codes "5")))
            λ check.
              and_then (ns.float_of (getenv env (codes "OPCUA_CONNECT_TIMEOUT_S") (codes "4")))
                λ timeout.
                  and_then (ns.int_of (getenv env (codes "HEALTH_PORT") (codes "0"))) λ port.
                    and_then
                      (ns.float_of (getenv env (codes "OPCUA_STALENESS_THRESHOLD_S") (codes "60")))
                      λ stale. ok (record {
                        pipeline_id = getenv env (codes "PIPELINE_ID") (codes "unknown");
                        endpoint = endpoint;
                        node_ids = node_ids;
                        node_names = names;
                        publishing_interval_ms = interval;
                        connection_check_s = check;
                        connect_timeout_s = timeout;
                        health_port = port;
                        staleness_threshold_s = stale;
                      })

  abbrev pub checked : Environ → Text → List Text → Result ConnectorConfig
  checked env [] node_ids = err (exit_with (codes "OPCUA_ENDPOINT is required"))
  checked env (c ∷ s) [] = err (exit_with (codes "OPCUA_NODE_IDS is required"))
  checked env (c ∷ s) (n ∷ rest) =
      and_then (names_of (py.loads (or_braces (getenv env (codes "OPCUA_NODE_NAMES_JSON") []))))
        (with_names env (c ∷ s) (n ∷ rest))

  unfoldable pub config : Environ → Result ConnectorConfig
  unfolding stripped_parts
  config env =
      checked env (getenv env (codes "OPCUA_ENDPOINT") [])
        (stripped_parts (getenv env (codes "OPCUA_NODE_IDS") []))
