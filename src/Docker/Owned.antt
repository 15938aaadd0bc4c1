-- ===== src/Docker/Owned.antt =====
-- On `DockerRuntimeAdapter` of services/task_manager/common/app_common/runtime/docker_runtime.py: whose
-- container a name is.
use live_streaming_data_pipe.Base.{◌≡◌, refl, ◌∙◌, Text, codes, false, none, some, []}
use live_streaming_data_pipe.Base.Exec.{Exc, Result, ok, err, lift, pure, continue, ◌>>=◌, ◌>>◌}
use live_streaming_data_pipe.Base.Dict.{lookup}
use live_streaming_data_pipe.Json.{Value}
use live_streaming_data_pipe.Model.{PipelineConfig, PipelineState}
use live_streaming_data_pipe.Sources.{Numbers}
use live_streaming_data_pipe.Telegraf.{Disk}
use live_streaming_data_pipe.Docker.{
  Daemon, Settings, is_not_found, cname, or_name, remove_if_exists, stop_then_remove, producer_env,
  run_producer, start_live_pipeline, stop_live_pipeline,
}
use live_streaming_data_pipe.Docker.Freed.{
  Answers, Apart, Freed, freed, failed, remove_if_exists-Freed, stop_and_remove-Freed,
}

module _ {World : Type 0} (d : Daemon World) (laws : Answers d) where
  module _ (ns : Numbers) (text_of : Value → Text) (disk : Disk) (settings : Settings)
      (config : PipelineConfig) where
    -- If a stop returns, nobody has the name of the pipeline's producer; if it raises, getting, stopping or
    -- removing the container raised that, and it was no `NotFound`. The other names keep their containers.
    pub stop_live_pipeline-Freed :
        (state : PipelineState) (w : World)
        → let name =
            or_name state.producer_container (cname (codes "producer") config.pipeline_id) in
          Freed d laws name w
            ((d.get name >>= stop_then_remove d) w).0
            (stop_live_pipeline d ns text_of disk settings config state w)
    unfolding stop_live_pipeline
    stop_live_pipeline-Freed state w =
        stop_and_remove-Freed d laws
          (or_name state.producer_container (cname (codes "producer") config.pipeline_id)) w

    abbrev name : Text
    name = cname (codes "producer") config.pipeline_id

    -- The end of a start in the world `w`.
    pub data Owned (w : World) : Result (Text × Text) × World → Type 0 where
      owned :
          (v : World)
          → laws.owner name v ≡ some config.pipeline_id
          → Apart d laws name w v
          → Owned w (ok (name, []), v)
      not_freed :
          (e : Exc) (v : World)
          → ((d.get name >>= d.remove) w).0 ≡ err e
          → is_not_found e.kind ≡ false
          → Apart d laws name w v
          → Owned w (err e, v)
      not_rendered :
          (e : Exc) (v : World)
          → producer_env d ns text_of disk settings config ≡ err e
          → laws.owner name v ≡ none
          → Apart d laws name w v
          → Owned w (err e, v)
      not_run :
          (telegraf : Text) (e : Exc) (u : World)
          → (run_producer d ns text_of disk settings config name telegraf u).0 ≡ err e
          → laws.owner name u ≡ none
          → Apart d laws name w (run_producer d ns text_of disk settings config name telegraf u).1
          → Owned w (err e, (run_producer d ns text_of disk settings config name telegraf u).1)

    ran-Owned :
        (telegraf : Text) (w v : World) (r : Result (Unit {0}))
        → laws.owner name v ≡ none
        → Apart d laws name w v
        → (run_producer d ns text_of disk settings config name telegraf v).0 ≡ r
        → Owned w (
            continue r
              (λ u. pure (name, []))
              (run_producer d ns text_of disk settings config name telegraf v).1)
    unfolding lookup
    ran-Owned telegraf w v (ok u) free apart h =
        owned (run_producer d ns text_of disk settings config name telegraf v).1
          (laws.ran _ config.pipeline_id v refl h)
          (λ other ne. laws.ran_keeps _ other v ne ∙ apart other ne)
    ran-Owned telegraf w v (err e) free apart h =
        not_run telegraf e v h free (λ other ne. laws.ran_keeps _ other v ne ∙ apart other ne)

    rendered-Owned :
        (w v : World) (r : Result Text)
        → laws.owner name v ≡ none
        → Apart d laws name w v
        → producer_env d ns text_of disk settings config ≡ r
        → Owned w (
            continue
              (continue r (run_producer d ns text_of disk settings config name) v).0
              (λ u. pure (name, []))
              (continue r (run_producer d ns text_of disk settings config name) v).1)
    rendered-Owned w v (ok telegraf) free apart h =
        ran-Owned telegraf w v (run_producer d ns text_of disk settings config name telegraf v).0
          free apart refl
    rendered-Owned w v (err e) free apart h = not_rendered e v h free apart

    Freed-Owned :
        (w : World) (x : Result (Unit {0}) × World)
        → Freed d laws name w ((d.get name >>= d.remove) w).0 x
        → Owned w (
            ((λ (v : World). x)
                >> (lift (producer_env d ns text_of disk settings config)
                    >>= run_producer d ns text_of disk settings config name)
                >> pure (name, []))
              w)
    unfolding ◌>>=◌
    Freed-Owned w x (freed v free apart) =
        rendered-Owned w v (producer_env d ns text_of disk settings config) free apart refl
    Freed-Owned w x (failed e v raised other apart) = not_freed e v raised other apart

    -- If a start returns, the name of the pipeline's producer is that of a container of this pipeline, whoever
    -- had it before; if it raises, then the removal raised something else than `NotFound`, or
    -- nobody has the name after the removal and the rendering or the run of the container raised. The
    -- other names keep their containers.
    pub start_live_pipeline-Owned :
        (w : World) → Owned w (start_live_pipeline d ns text_of disk settings config w)
    unfolding start_live_pipeline ◌>>=◌
    start_live_pipeline-Owned w =
        Freed-Owned w (remove_if_exists d name w) (remove_if_exists-Freed d laws name w)
