-- ===== src/Watchdog.antt =====
-- services/task_manager/watchdog/app/main.py: `_check`, `_restart` and one pass of `_watchdog_loop`.
pub mod Outcome
pub mod Tests
use live_streaming_data_pipe.Base.{
  ℕ, ◌+◌, ◌*◌, ltb, Text, codes, Bool, true, false, Option, none, some, List, [], ◌∷◌, ◌++◌,
  if◌then◌else◌,
}
use live_streaming_data_pipe.Base.Exec.{
  Exc, ExcKind, value_error, Result, ok, err, Exec, pure, continue, ◌>>=◌,
}
use live_streaming_data_pipe.Model.{
  PipelineConfig, PipelineState, PipelineStatus, starting, failed, DesiredState, want_running,
  want_stopped,
}
use live_streaming_data_pipe.Repo.Redis.{Redis}
use live_streaming_data_pipe.Repo.Store.{get_config, get_state, update_state, list_pipeline_ids}
use live_streaming_data_pipe.Runtime.{RuntimeAdapter}
use live_streaming_data_pipe.Api.Reply.{set_status, with_error, with_producer, with_consumer}

-- `state.desired_state == DesiredState.RUNNING`
abbrev pub wants_running : DesiredState → Bool
wants_running want_running = true
wants_running want_stopped = false

abbrev pub is_starting : PipelineStatus → Bool
is_starting starting = true
is_starting _ = false

-- the truth of an optional text
abbrev pub named : Option Text → Option Text
named none = none
named (some []) = none
named (some (c ∷ s)) = some (c ∷ s)

-- `except ValueError`
abbrev pub is_value_error : ExcKind → Bool
is_value_error value_error = true
is_value_error _ = false

-- `age_of` is `now - datetime.fromisoformat(text)` in microseconds; an age below zero is never over
-- the timeout, and is 0 here. `hb_timeout` is in seconds.
module _ (rd : Redis) (rt : RuntimeAdapter rd.World) (age_of : Text → Exec rd.World ℕ)
    (hb_timeout : ℕ) where
  open rd use {World}

  abbrev pub failed_restart : Text → Exc → Exec World (Unit {0})
  failed_restart pid e w =
      let (r, w') =
        update_state rd pid
          (with_error (codes "watchdog restart failed: " ++ e.message) (set_status failed)) w in
      continue r (λ _ v. (ok tt, v)) w'

  abbrev pub or_fail : Text → Result (Unit {0}) × World → Result (Unit {0}) × World
  or_fail pid (ok u, w) = (ok u, w)
  or_fail pid (err e, w) = failed_restart pid e w

  -- the `try` of `_restart`
  unfoldable pub try_restart : Text → PipelineConfig → PipelineState → Exec World (Unit {0})
  unfolding update_state ◌>>=◌
  try_restart pid config state = do
    marked ← update_state rd pid (set_status starting)
    names ← rt.restart_live_pipeline config state
    saved ← update_state rd pid (
        with_producer (some names.0)
          (with_consumer (some names.1) (with_error [] (set_status starting))))
    pure tt

  unfoldable pub restart : Text → PipelineConfig → PipelineState → Exec World (Unit {0})
  unfolding try_restart update_state
  restart pid config state w = or_fail pid (try_restart pid config state w)

  abbrev pub unless_running :
      Exec World (Unit {0}) → Exec World (Unit {0}) → Bool → Exec World (Unit {0})
  unless_running act rest true w = rest w
  unless_running act rest false w = act w

  -- one turn of the loop over the two containers
  abbrev pub check_container :
      Option Text → Exec World (Unit {0}) → Exec World (Unit {0}) → Exec World (Unit {0})
  check_container none act rest w = rest w
  check_container (some c) act rest w =
      let (r, w') = rt.is_running c w in continue r (unless_running act rest) w'

  abbrev pub check_containers : Text → PipelineConfig → PipelineState → Exec World (Unit {0})
  check_containers pid config state =
      check_container (named state.producer_container) (restart pid config state)
        (check_container (named state.consumer_container) (restart pid config state) (pure tt))

  abbrev pub late : ℕ
  late = (hb_timeout + 1) * 1_000_000

  abbrev pub check_age :
      Text → PipelineConfig → PipelineState → Result ℕ × World → Result (Unit {0}) × World
  check_age pid config state (ok age, w) =
      if ltb (hb_timeout * 1_000_000) age
      then restart pid config state w
      else check_containers pid config state w
  check_age pid config state (err e, w) = (err e, w)

  -- `age_s`, with its handler
  abbrev pub age_or_late : Result ℕ × World → Result ℕ × World
  age_or_late (ok age, w) = (ok age, w)
  age_or_late (err e, w) = (if is_value_error e.kind then ok late else err e, w)

  abbrev pub check_heartbeat :
      Option Text → Text → PipelineConfig → PipelineState → Exec World (Unit {0})
  check_heartbeat none pid config state w = check_containers pid config state w
  check_heartbeat (some t) pid config state w =
      check_age pid config state (age_or_late (age_of t w))

  abbrev pub check_wanted : Text → PipelineConfig → PipelineState → Exec World (Unit {0})
  check_wanted pid config state w =
      if wants_running state.desired_state
      then (if is_starting state.status
          then (ok tt, w)
          else check_heartbeat (named state.last_heartbeat_at) pid config state w)
      else (ok tt, w)

  abbrev pub check_found :
      Text → Option PipelineState → Option PipelineConfig → Exec World (Unit {0})
  check_found pid none config w = (ok tt, w)
  check_found pid (some state) none w = (ok tt, w)
  check_found pid (some state) (some config) w = check_wanted pid config state w

  unfoldable pub check : Text → Exec World (Unit {0})
  unfolding get_state get_config restart ◌>>=◌
  check pid = do state ← get_state rd pid; config ← get_config rd pid; check_found pid state config

  -- One pass over the pipelines: what a check raises is logged, and the pass goes on.
  unfoldable pub check_all : List Text → World → World
  unfolding check
  check_all [] w = w
  check_all (pid ∷ pids) w = check_all pids (check pid w).1

  unfoldable pub watchdog_pass : World → World
  unfolding check_all list_pipeline_ids
  watchdog_pass w = check_all (list_pipeline_ids rd w) w
