-- ===== src/Docker.antt =====
-- services/task_manager/common/app_common/runtime/docker_runtime.py: a pipeline's producer as one
-- container of the host's Docker daemon.
pub mod Freed
pub mod Owned
pub mod Evicts
pub mod Tests
use live_streaming_data_pipe.Base.{
  ℕ, ◌≡◌, ◌≢◌, Text, text_eq, codes, replace, Bool, true, false, Option, none, some, List, [], ◌∷◌,
  ◌++◌, if◌then◌else◌,
}
use live_streaming_data_pipe.Base.Dict.{Dict}
use live_streaming_data_pipe.Base.Exec.{
  Exc, ExcKind, not_found, Result, ok, err, Exec, pure, raise, lift, continue, ◌>>=◌, ◌>>◌,
}
use live_streaming_data_pipe.Json.{Value}
use live_streaming_data_pipe.Model.{PipelineConfig, PipelineState}
use live_streaming_data_pipe.Runtime.{RuntimeAdapter}
use live_streaming_data_pipe.Sources.{Numbers}
use live_streaming_data_pipe.Telegraf.{Disk, connector_dir, render_telegraf_config}

-- The arguments of `containers.run`, less the constant ones: a detached container that is restarted at
-- most five times on failure.
pub record Run : Type 0 where
  pub image : Text
  pub name : Text
  pub environment : Dict Text
  pub network : Text
  pub labels : Dict Text

-- The daemon. A container is known by its id.
pub record Daemon (World : Type 0) : Type 0 where
  pub get : Text → Exec World Text
  pub remove : Text → Exec World (Unit {0})
  pub stop : Text → ℕ → Exec World (Unit {0})
  pub run : Run → Exec World (Unit {0})
  -- the decoded logs, and the status after `reload`
  pub logs : Text → ℕ → Exec World Text
  pub reloaded_status : Text → Exec World Text
  pub sleep : ℕ → Exec World (Unit {0})

pub record Settings : Type 0 where
  pub producer_image : Text
  pub kafka_bootstrap_servers : Text
  pub docker_network : Text

abbrev pub is_not_found : ExcKind → Bool
is_not_found not_found = true
is_not_found _ = false

-- `_cname`
unfoldable pub cname : Text → Text → Text
unfolding replace
cname role pipeline_id =
    let safe = replace (replace pipeline_id b'.' b'-') b'_' b'-' in
    codes "dp-" ++ (role ++ (codes "-" ++ safe))

-- `state.producer_container or …`
abbrev pub or_name : Option Text → Text → Text
or_name none name = name
or_name (some []) name = name
or_name (some (c ∷ s)) name = c ∷ s

abbrev pub run_labels : Text → Text → Dict Text
run_labels role pipeline_id =
    (codes "data-platform.role", role)
    ∷ (codes "data-platform.pipeline_id", pipeline_id)
    ∷ (codes "data-platform.managed", codes "true")
    ∷ []

module _ {World : Type 0} (daemon : Daemon World) where
  -- `except NotFound: pass`
  abbrev pub unless_gone : Result (Unit {0}) × World → Result (Unit {0}) × World
  unless_gone (ok u, w) = (ok tt, w)
  unless_gone (err e, w) = (if is_not_found e.kind then ok tt else err e, w)

  -- `_remove_if_exists`
  unfoldable pub remove_if_exists : Text → Exec World (Unit {0})
  unfolding ◌>>=◌
  remove_if_exists name w = unless_gone ((daemon.get name >>= daemon.remove) w)

  abbrev pub stop_then_remove : Text → Exec World (Unit {0})
  stop_then_remove c = daemon.stop c 15 >> daemon.remove c

  -- `_stop_and_remove`
  unfoldable pub stop_and_remove : Text → Exec World (Unit {0})
  unfolding ◌>>=◌
  stop_and_remove name w = unless_gone ((daemon.get name >>= stop_then_remove) w)

  abbrev pub logs_or_text : Text → Result Text × World → Result Text × World
  logs_or_text name (ok t, w) = (ok t, w)
  logs_or_text name (err e, w) = (
    if is_not_found e.kind
        then ok (codes "[container '" ++ (name ++ codes "' not found]"))
        else ok (codes "[error fetching logs: " ++ (e.message ++ codes "]")),
    w,
  )

  -- `_fetch_logs`
  unfoldable pub fetch_logs : Text → ℕ → Exec World Text
  unfolding ◌>>=◌
  fetch_logs name tail w = logs_or_text name ((daemon.get name >>= λ c. daemon.logs c tail) w)

  abbrev pub status_or_false : Result Text × World → Result Bool × World
  status_or_false (ok s, w) = (ok (text_eq s (codes "running")), w)
  status_or_false (err e, w) = (if is_not_found e.kind then ok false else err e, w)

  -- `_container_running`
  unfoldable pub container_running : Text → Exec World Bool
  unfolding ◌>>=◌
  container_running name w = status_or_false ((daemon.get name >>= daemon.reloaded_status) w)

  module _ (ns : Numbers) (text_of : Value → Text) (disk : Disk) (settings : Settings) where
    -- `_producer_env`
    unfoldable pub producer_env : PipelineConfig → Result Text
    unfolding render_telegraf_config
    producer_env config =
        render_telegraf_config ns text_of disk config settings.kafka_bootstrap_servers connector_dir
          (codes "10s")

    -- `_run` for a producer
    abbrev pub run_producer : PipelineConfig → Text → Text → Exec World (Unit {0})
    run_producer config name telegraf = daemon.run (record {
      image = settings.producer_image;
      name = name;
      environment = (codes "TELEGRAF_CONFIG", telegraf) ∷ [];
      network = settings.docker_network;
      labels = run_labels (codes "producer") config.pipeline_id;
    })

    unfoldable pub start_live_pipeline : PipelineConfig → Exec World (Text × Text)
    unfolding remove_if_exists producer_env cname ◌>>=◌
    start_live_pipeline config =
        remove_if_exists (cname (codes "producer") config.pipeline_id)
        >> (lift (producer_env config)
            >>= run_producer config (cname (codes "producer") config.pipeline_id))
        >> pure (cname (codes "producer") config.pipeline_id, [])

    unfoldable pub stop_live_pipeline : PipelineConfig → PipelineState → Exec World (Unit {0})
    unfolding stop_and_remove cname
    stop_live_pipeline config state =
        stop_and_remove
          (or_name state.producer_container (cname (codes "producer") config.pipeline_id))

    unfoldable pub restart_live_pipeline : PipelineConfig → PipelineState → Exec World (Text × Text)
    unfolding start_live_pipeline stop_live_pipeline ◌>>=◌
    restart_live_pipeline config state =
        stop_live_pipeline config state >> daemon.sleep 2 >> start_live_pipeline config

    -- `DockerRuntimeAdapter`
    unfoldable pub docker : RuntimeAdapter World
    unfolding start_live_pipeline stop_live_pipeline restart_live_pipeline fetch_logs
        container_running
    docker = record {
      start_live_pipeline = λ config state. start_live_pipeline config;
      stop_live_pipeline = stop_live_pipeline;
      restart_live_pipeline = restart_live_pipeline;
      get_logs = fetch_logs;
      is_running = container_running;
    }
