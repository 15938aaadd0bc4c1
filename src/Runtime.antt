-- ===== src/Runtime.antt =====
-- services/task_manager/common/app_common/runtime/base.py: what the services use of a runtime adapter,
-- and of services/task_manager/task_manager/app/provisioning.py.
use live_streaming_data_pipe.Base.{ℕ, Text, codes, Bool, true, ◌≡◌, refl}
use live_streaming_data_pipe.Base.Exec.{ok, Exec}
use live_streaming_data_pipe.Model.{PipelineConfig, PipelineState}
use live_streaming_data_pipe.Repo.Redis.{Redis}

-- `RuntimeAdapter`
pub record RuntimeAdapter (World : Type 0) : Type 0 where
  pub start_live_pipeline : PipelineConfig → PipelineState → Exec World (Text × Text)
  pub stop_live_pipeline : PipelineConfig → PipelineState → Exec World (Unit {0})
  pub restart_live_pipeline : PipelineConfig → PipelineState → Exec World (Text × Text)
  pub get_logs : Text → ℕ → Exec World Text
  pub is_running : Text → Exec World Bool

-- `provision`, `wait_for_drain` and `delete_topic`
pub record Provisioning (World : Type 0) : Type 0 where
  pub provision : PipelineConfig → Exec World (Unit {0})
  pub wait_for_drain : PipelineConfig → Exec World Bool
  pub delete_topic : PipelineConfig → Exec World (Unit {0})

-- The adapter writes nothing to Redis, and nobody else does while it works.
pub record IsApart (rd : Redis) (rt : RuntimeAdapter rd.World) : Type 0 where
  pub at_start :
      (c : PipelineConfig) (s : PipelineState) (k : Text) (w : rd.World)
      → rd.get k (rt.start_live_pipeline c s w).1 ≡ rd.get k w
  pub at_stop :
      (c : PipelineConfig) (s : PipelineState) (k : Text) (w : rd.World)
      → rd.get k (rt.stop_live_pipeline c s w).1 ≡ rd.get k w
  pub at_restart :
      (c : PipelineConfig) (s : PipelineState) (k : Text) (w : rd.World)
      → rd.get k (rt.restart_live_pipeline c s w).1 ≡ rd.get k w

-- `RedisOnlyAdapter` of services/task_manager/common/app_common/runtime/docker_runtime.py
abbrev pub redis_only : {World : Type 0} → RuntimeAdapter World
redis_only = record {
  start_live_pipeline = λ c s w. (ok (codes "redis-only-producer", codes "redis-only-consumer"), w);
  stop_live_pipeline = λ c s w. (ok tt, w);
  restart_live_pipeline =
      λ c s w. (ok (codes "redis-only-producer", codes "redis-only-consumer"), w);
  get_logs = λ container tail w. (ok (codes "[redis_only mode]"), w);
  is_running = λ container w. (ok true, w);
}

-- The adapter without containers writes nothing.
pub redis_only-IsApart : (rd : Redis) → IsApart rd redis_only
redis_only-IsApart rd = record {
  at_start = λ c s k w. refl;
  at_stop = λ c s k w. refl;
  at_restart = λ c s k w. refl;
}
