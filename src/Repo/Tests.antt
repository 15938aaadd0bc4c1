-- ===== src/Repo/Tests.antt =====
-- A known pipeline, and the theorems of Repo/Laws.antt at it.
use live_streaming_data_pipe.Base.{◌≡◌, refl, Text, codes, none, some, [], ◌∷◌}
use live_streaming_data_pipe.Base.Int.{pos}
use live_streaming_data_pipe.Base.Exec.{ok}
use live_streaming_data_pipe.Model.{
  PipelineConfig, PipelineState, live, created, running, want_stopped, want_running, opcua,
  default_table_schema,
}
use live_streaming_data_pipe.Repo.Keys.{pipeline_config_key, pipeline_state_key}
use live_streaming_data_pipe.Repo.Redis.{Redis}
use live_streaming_data_pipe.Repo.Store.{Update, no_update, get_state, get_config, update_state}
use live_streaming_data_pipe.Repo.Codec.{one_config, load, dump}
use live_streaming_data_pipe.Repo.Laws.{Holds, update_state-Holds_ne}
use live_streaming_data_pipe.Repo.Updated.{IsUpdated, update_state-IsUpdated}

abbrev pub p1_config : PipelineConfig
p1_config = record {
  pipeline_id = codes "p1";
  pipeline_type = live;
  airflow_dag_id = none;
  user_id = codes "0";
  collection_number = pos 1;
  table_name = codes "events";
  table_schema = default_table_schema;
  source_type = opcua;
  topic = codes "pipeline.p1.events";
  batch_size = 500;
  flush_interval_seconds = 60;
  source_options = record {
    staleness_threshold_s = none;
    endpoint = codes "opc.tcp://host:4840";
    node_ids = codes "ns=2;i=1" ∷ [];
    node_names = [];
    publishing_interval_ms = 1_000;
    connect_timeout_s = none;
  };
  created_at = codes "2026-01-01T00:00:00+00:00";
  updated_at = codes "2026-01-01T00:00:00+00:00";
}

abbrev pub state_named : Text → PipelineState
state_named pid = record {
  pipeline_id = pid;
  pipeline_type = live;
  desired_state = want_stopped;
  status = created;
  topic = codes "pipeline.p1.events";
  producer_container = none;
  consumer_container = some (codes "pool");
  last_heartbeat_at = none;
  last_error = none;
  updated_at = codes "2026-01-01T00:00:00+00:00";
}

abbrev pub rd : Redis
rd = one_config p1_config

-- Two pipelines, `p1` and `p`.
abbrev pub stored : rd.World
stored = rd.set (pipeline_config_key (codes "p1")) (codes "{}") (
    rd.set (pipeline_state_key (codes "p1")) (dump (state_named (codes "p1")))
      (rd.set (pipeline_state_key (codes "p")) (dump (state_named (codes "p"))) (λ k. none)))

pub p1-Holds : Holds rd (codes "p1") (state_named (codes "p1")) stored
unfolding get_state pipeline_config_key pipeline_state_key load dump
p1-Holds = refl

p-Holds : Holds rd (codes "p") (state_named (codes "p")) stored
unfolding get_state pipeline_config_key pipeline_state_key load dump
p-Holds = refl

pub p1_found : (get_config rd (codes "p1") stored).0 ≡ ok (some p1_config)
unfolding get_config pipeline_config_key
p1_found = refl

abbrev started : Update
started = record no_update { status = some running; desired_state = some want_running }

update_state-IsUpdated_example :
    (t : PipelineState) × ((update_state rd (codes "p1") started stored).0 ≡ ok t)
    × Holds rd (codes "p1") t (update_state rd (codes "p1") started stored).1
    × IsUpdated started (rd.utc_now_iso stored).0 (state_named (codes "p1")) t
update_state-IsUpdated_example =
    update_state-IsUpdated rd (codes "p1") started (state_named (codes "p1")) stored refl p1-Holds

update_state-Holds_ne_example :
    Holds rd (codes "p") (state_named (codes "p")) (update_state rd (codes "p1") started stored).1
update_state-Holds_ne_example =
    update_state-Holds_ne rd (codes "p1") (codes "p") started (state_named (codes "p1"))
      (state_named (codes "p")) stored refl p1-Holds (λ e. cc) p-Holds
