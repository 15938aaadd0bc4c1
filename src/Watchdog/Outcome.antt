-- ===== src/Watchdog/Outcome.antt =====
-- On `_restart` of services/task_manager/watchdog/app/main.py: the state that it leaves in Redis.
use live_streaming_data_pipe.Base.{ℕ, Text, codes, some, ◌≡◌, ◌++◌, []}
use live_streaming_data_pipe.Base.Exec.{Result, ok, Exec}
use live_streaming_data_pipe.Model.{PipelineState, starting, failed, DesiredState}
use live_streaming_data_pipe.Repo.Redis.{Redis}
use live_streaming_data_pipe.Repo.Laws.{Holds}
use live_streaming_data_pipe.Runtime.{RuntimeAdapter}

-- The state after a restart of a pipeline wanted `d`.
pub data Restarted (d : DesiredState) (t : PipelineState) : Type 0 where
  did_restart :
      (p c : Text)
      → t.desired_state ≡ d
      → t.status ≡ starting
      → t.producer_container ≡ some p
      → t.consumer_container ≡ some c
      → t.last_error ≡ some []
      → Restarted d t
  restart_failed :
      (e : Text)
      → t.desired_state ≡ d
      → t.status ≡ failed
      → t.last_error ≡ some (codes "watchdog restart failed: " ++ e)
      → Restarted d t

module _ (rd : Redis) (rt : RuntimeAdapter rd.World) (age_of : Text → Exec rd.World ℕ)
    (hb_timeout : ℕ) where
  open rd use {World}

  -- The call returns, and Redis holds such a state.
  abbrev pub Leaves : DesiredState → Text → Result (Unit {0}) × World → Type 0
  Leaves d pid x = (t : PipelineState) × (x.0 ≡ ok tt) × Holds rd pid t x.1 × Restarted d t
