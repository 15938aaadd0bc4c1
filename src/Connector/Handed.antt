-- ===== src/Connector/Handed.antt =====
-- On `_opcua_environment` of services/task_manager/common/app_common/sources.py and `_config` of
-- connectors/opcua/connector.py: what the task manager writes, the connector reads.
use live_streaming_data_pipe.Base.{
  ℕ, ◌≡◌, ◌≢◌, refl, Text, codes, some, List, [], ◌∷◌, inl, inr, All, In, join, arith,
}
use live_streaming_data_pipe.Base.Int.{ℤ, pos, nat_str}
use live_streaming_data_pipe.Base.Strip.{IsPlain, stripped_parts-join}
use live_streaming_data_pipe.Base.Exec.{ok}
use live_streaming_data_pipe.Json.{Value, parsed, Py}
use live_streaming_data_pipe.Json.Dumps.{dumps_texts}
use live_streaming_data_pipe.Model.{PipelineConfig}
use live_streaming_data_pipe.Sources.{Numbers, entry, opcua_environment}
use live_streaming_data_pipe.Connector.Config.{Environ, ConnectorConfig, getenv, checked, config}

-- A process that is started with entries `KEY=VALUE` finds them in its environment.
abbrev pub Carries : Environ → List Text → Type 0
Carries env entries = (k v : Text) → All (λ c. c ≢ b'=') k → In (entry k v) entries → env k ≡ some v

module _ (py : Py) (ns : Numbers) (cfg : PipelineConfig) (env : Environ) where
  -- What the connector relies on beside the entries of the task manager: its numbers and the JSON of the
  -- node names are read.
  pub record Reads (names : Value) (check timeout stale : ℕ) (port : ℤ) : Type 0 where
    pub names_read : py.loads (dumps_texts cfg.source_options.node_names) ≡ parsed names
    pub interval_read :
        ns.int_of (nat_str cfg.source_options.publishing_interval_ms)
        ≡ ok (pos cfg.source_options.publishing_interval_ms)
    pub check_read :
        ns.float_of (getenv env (codes "OPCUA_CONNECTION_CHECK_S") (codes "5")) ≡ ok check
    pub timeout_read :
        ns.float_of (getenv env (codes "OPCUA_CONNECT_TIMEOUT_S") (codes "4")) ≡ ok timeout
    pub port_read : ns.int_of (getenv env (codes "HEALTH_PORT") (codes "0")) ≡ ok port
    pub stale_read :
        ns.float_of (getenv env (codes "OPCUA_STALENESS_THRESHOLD_S") (codes "60")) ≡ ok stale

  abbrev pub handed : Value → ℕ → ℕ → ℕ → ℤ → ConnectorConfig
  handed names check timeout stale port = record {
    pipeline_id = cfg.pipeline_id;
    endpoint = cfg.source_options.endpoint;
    node_ids = cfg.source_options.node_ids;
    node_names = names;
    publishing_interval_ms = pos cfg.source_options.publishing_interval_ms;
    connection_check_s = check;
    connect_timeout_s = timeout;
    health_port = port;
    staleness_threshold_s = stale;
  }

  module _ (carried : Carries env (opcua_environment ns cfg)) where
    found_id : env (codes "PIPELINE_ID") ≡ some cfg.pipeline_id
    unfolding opcua_environment
    found_id = carried (codes "PIPELINE_ID") cfg.pipeline_id (omega arith) (inl refl)

    found_endpoint : env (codes "OPCUA_ENDPOINT") ≡ some cfg.source_options.endpoint
    unfolding opcua_environment
    found_endpoint =
        carried (codes "OPCUA_ENDPOINT") cfg.source_options.endpoint (omega arith) (inr (inl refl))

    found_nodes : env (codes "OPCUA_NODE_IDS") ≡ some (join (codes ",") cfg.source_options.node_ids)
    unfolding opcua_environment
    found_nodes =
        carried (codes "OPCUA_NODE_IDS") (join (codes ",") cfg.source_options.node_ids)
          (omega arith) (inr (inr (inl refl)))

    found_names :
        env (codes "OPCUA_NODE_NAMES_JSON") ≡ some (dumps_texts cfg.source_options.node_names)
    unfolding opcua_environment
    found_names =
        carried (codes "OPCUA_NODE_NAMES_JSON") (dumps_texts cfg.source_options.node_names)
          (omega arith) (inr (inr (inr (inl refl))))

    found_interval :
        env (codes "OPCUA_PUBLISHING_INTERVAL_MS")
        ≡ some (nat_str cfg.source_options.publishing_interval_ms)
    unfolding opcua_environment
    found_interval =
        carried (codes "OPCUA_PUBLISHING_INTERVAL_MS")
          (nat_str cfg.source_options.publishing_interval_ms) (omega arith)
          (inr (inr (inr (inr (inl refl)))))

    -- The rest of `_config`, where the endpoint and the ids are there.
    checked-handed :
        (names : Value) (check timeout stale : ℕ) (port : ℤ) (endpoint : Text)
        (node_ids : List Text)
        → Reads names check timeout stale port
        → cfg.source_options.endpoint ≡ endpoint
        → cfg.source_options.node_ids ≡ node_ids
        → endpoint ≢ []
        → node_ids ≢ []
        → checked py ns env endpoint node_ids ≡ ok (handed names check timeout stale port)
    unfolding dumps_texts
    checked-handed names check timeout stale port [] node_ids r p q filled some_id =
        absurd (filled refl)
    checked-handed names check timeout stale port (c ∷ s) [] r p q filled some_id =
        absurd (some_id refl)
    checked-handed names check timeout stale port (c ∷ s) (n ∷ rest) r p q filled some_id =
        rw
          (
            found_names, r.names_read, found_interval, r.interval_read, r.check_read,
            r.timeout_read, r.port_read, r.stale_read, found_id,
          )
          (rw (p, q) refl)

    -- If a process has the environment that `_opcua_environment` gives for a configuration with an endpoint
    -- and at least one node id, the ids have no comma and no white space around them, and its numbers and
    -- its JSON are read, then `_config` returns: its pipeline id, endpoint, node ids and
    -- publishing interval are those of the configuration.
    pub config-opcua_environment :
        (names : Value) (check timeout stale : ℕ) (port : ℤ)
        → Reads names check timeout stale port
        → cfg.source_options.endpoint ≢ []
        → cfg.source_options.node_ids ≢ []
        → All IsPlain cfg.source_options.node_ids
        → config py ns env ≡ ok (handed names check timeout stale port)
    unfolding config
    config-opcua_environment names check timeout stale port r filled some_id plain =
        rw (found_endpoint, found_nodes, stripped_parts-join cfg.source_options.node_ids plain)
          (checked-handed names check timeout stale port cfg.source_options.endpoint
            cfg.source_options.node_ids r refl refl filled some_id)
