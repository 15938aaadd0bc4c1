-- ===== src/Api/Tests.antt =====
-- The theorems of Api/Outcome.antt at a known pipeline, with a runtime that starts and cannot stop.
use live_streaming_data_pipe.Base.{some, none, ◌≡◌, refl, codes, true, []}
use live_streaming_data_pipe.Base.Exec.{Exc, runtime_error, ok, err}
use live_streaming_data_pipe.Model.{PipelineState, want_running}
use live_streaming_data_pipe.Repo.Keys.{pipeline_config_key, pipeline_state_key}
use live_streaming_data_pipe.Repo.Store.{get_config, get_state}
use live_streaming_data_pipe.Repo.Codec.{load, dump}
use live_streaming_data_pipe.Repo.Tests.{p1_config, state_named, rd, stored, p1-Holds, p1_found}
use live_streaming_data_pipe.Runtime.{RuntimeAdapter, IsApart}
use live_streaming_data_pipe.Api.Lifecycle.{start_pipeline, stop_pipeline}
use live_streaming_data_pipe.Base.Int.{pos}
use live_streaming_data_pipe.Base.Exec.{◌>>=◌}
use live_streaming_data_pipe.Model.{live, opcua}
use live_streaming_data_pipe.Runtime.{Provisioning}
use live_streaming_data_pipe.Api.Reply.{http_error}
use live_streaming_data_pipe.Api.Records.{CreateRequest, create_pipeline}
use live_streaming_data_pipe.Api.Rollback.{Unknown, create_pipeline-Unknown}
use live_streaming_data_pipe.Api.Reply.{no_content}
use live_streaming_data_pipe.Api.Records.{delete_pipeline}
use live_streaming_data_pipe.Api.Deleted.{Deletion, delete_pipeline-Deletion}
use live_streaming_data_pipe.Api.Outcome.{
  Ends, StartEnds, StopEnds, Known, start_pipeline-Ends, stop_pipeline-Ends,
}

abbrev pub no_stop : Exc
no_stop = record {
  kind = runtime_error;
  name = codes "RuntimeError";
  message = codes "cannot stop";
}

abbrev pub adapter : RuntimeAdapter rd.World
adapter = record {
  start_live_pipeline = λ c s w. (ok (codes "producer-p1", codes "pool"), w);
  stop_live_pipeline = λ c s w. (err no_stop, w);
  restart_live_pipeline = λ c s w. (ok (codes "producer-p1", codes "pool"), w);
  get_logs = λ name tail w. (ok [], w);
  is_running = λ name w. (ok true, w);
}

pub adapter-IsApart : IsApart rd adapter
adapter-IsApart = record {
  at_start = λ c s k w. refl;
  at_stop = λ c s k w. refl;
  at_restart = λ c s k w. refl;
}

p1-Known : Known rd adapter (codes "p1") (state_named (codes "p1")) stored
p1-Known = record {
  config = p1_config;
  has_config = p1_found;
  is_live = refl;
  own_id = refl;
  has_state = p1-Holds;
}

start_pipeline-Ends_example :
    Ends rd adapter
      (StartEnds (ok (codes "producer-p1", codes "pool")))
      (codes "p1")
      (start_pipeline rd adapter (codes "p1") stored)
start_pipeline-Ends_example =
    start_pipeline-Ends rd adapter adapter-IsApart (codes "p1") (state_named (codes "p1")) stored
      p1-Known refl

-- `p1`, wanted running.
abbrev p1_running : PipelineState
p1_running = record (state_named (codes "p1")) { desired_state = want_running }

abbrev stored_running : rd.World
stored_running = rd.set (pipeline_state_key (codes "p1")) (dump p1_running) stored

p1_running-Known : Known rd adapter (codes "p1") p1_running stored_running
unfolding get_config get_state pipeline_config_key pipeline_state_key load dump
p1_running-Known = record {
  config = p1_config;
  has_config = refl;
  is_live = refl;
  own_id = refl;
  has_state = refl;
}

stop_pipeline-Ends_example :
    Ends rd adapter
      (StopEnds (err no_stop))
      (codes "p1")
      (stop_pipeline rd adapter (codes "p1") stored_running)
stop_pipeline-Ends_example =
    stop_pipeline-Ends rd adapter adapter-IsApart (codes "p1") p1_running stored_running
      p1_running-Known refl

-- A provisioning that fails.
abbrev no_broker : Exc
no_broker = record {
  kind = runtime_error;
  name = codes "RuntimeError";
  message = codes "no broker";
}

abbrev unprovisioned : Provisioning rd.World
unprovisioned = record {
  provision = λ c w. (err no_broker, w);
  wait_for_drain = λ c w. (ok true, w);
  delete_topic = λ c w. (ok tt, w);
}

abbrev p1_request : CreateRequest
p1_request = record {
  pipeline_id = codes "p1";
  pipeline_type = live;
  airflow_dag_id = none;
  user_id = none;
  collection_number = some (pos 3);
  table_name = none;
  table_schema = p1_config.table_schema;
  source_type = opcua;
  topic = none;
  batch_size = 500;
  flush_interval_seconds = 60;
  source_options = p1_config.source_options;
}

abbrev empty_store : rd.World
empty_store k = none

p1_refused :
    (create_pipeline rd adapter unprovisioned p1_request empty_store).0
    ≡ ok (http_error 502 (codes "provisioning failed: no broker"))
unfolding create_pipeline pipeline_config_key pipeline_state_key ◌>>=◌
p1_refused = refl

create_pipeline-Unknown_example :
    Unknown rd adapter unprovisioned
      (codes "p1")
      (create_pipeline rd adapter unprovisioned p1_request empty_store).1
create_pipeline-Unknown_example =
    create_pipeline-Unknown rd adapter unprovisioned p1_request empty_store
      (codes "provisioning failed: no broker") p1_refused

-- A provisioning whose topics drain at once.
abbrev drained : Provisioning rd.World
drained = record {
  provision = λ c w. (ok tt, w);
  wait_for_drain = λ c w. (ok true, w);
  delete_topic = λ c w. (ok tt, w);
}

p1_deleted : (delete_pipeline rd adapter drained (codes "p1") stored).0 ≡ ok no_content
unfolding delete_pipeline get_config get_state pipeline_config_key pipeline_state_key load dump
    ◌>>=◌
p1_deleted = refl

delete_pipeline-Deletion_example :
    Deletion rd adapter drained
      (codes "p1")
      p1_config
      (get_config rd (codes "p1") stored).1
      (delete_pipeline rd adapter drained (codes "p1") stored).1
delete_pipeline-Deletion_example =
    delete_pipeline-Deletion rd adapter drained (codes "p1") p1_config stored p1_found refl
      p1_deleted
