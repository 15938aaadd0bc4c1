-- ===== src/Controller.antt =====
-- services/task_manager/controller/app/main.py: `_act`, and what `_reconcile_loop` decides.
pub mod Outcome
pub mod Settled
pub mod Tests
use live_streaming_data_pipe.Base.{
  Text, codes, Bool, true, false, Option, none, some, List, [], ◌∷◌, ◌&&◌, ◌||◌, not, if◌then◌else◌,
}
use live_streaming_data_pipe.Base.Exec.{Exc, Result, ok, err, Exec, pure, lift, continue, ◌>>=◌}
use live_streaming_data_pipe.Model.{
  PipelineConfig, PipelineState, PipelineType, normal, live, PipelineStatus, created, starting,
  running, stopping, stopped, failed, DesiredState, want_running, want_stopped,
}
use live_streaming_data_pipe.Repo.Redis.{Redis}
use live_streaming_data_pipe.Repo.Store.{Update, get_config, get_state, update_state}
use live_streaming_data_pipe.Runtime.{RuntimeAdapter}
use live_streaming_data_pipe.Api.Reply.{
  set_status, set_both, with_error, with_producer, with_consumer,
}

-- `status in _IDLE`
unfoldable pub is_idle : PipelineStatus → Bool
is_idle created = true
is_idle stopped = true
is_idle failed = true
is_idle _ = false

-- `status in _ALREADY_STOPPED`
unfoldable pub is_already_stopped : PipelineStatus → Bool
is_already_stopped stopped = true
is_already_stopped stopping = true
is_already_stopped created = true
is_already_stopped failed = true
is_already_stopped _ = false

-- `status in {RUNNING, STARTING}`
unfoldable pub is_up : PipelineStatus → Bool
is_up running = true
is_up starting = true
is_up _ = false

abbrev pub is_live_type : PipelineType → Bool
is_live_type live = true
is_live_type normal = false

-- `needs_start or needs_stop`
abbrev pub needs : DesiredState → PipelineStatus → Bool
needs want_running status = is_idle status
needs want_stopped status = not (is_already_stopped status)

-- What `_reconcile_loop` decides of one pipeline whose lock is free.
unfoldable pub needs_act : Option PipelineState → Option PipelineConfig → Bool
unfolding is_idle is_already_stopped
needs_act none config = false
needs_act (some state) none = false
needs_act (some state) (some config) =
    is_live_type config.pipeline_type && needs state.desired_state state.status

module _ (rd : Redis) (rt : RuntimeAdapter rd.World) where
  open rd use {World}

  -- `update_state` at the end of a branch
  abbrev pub save : Text → Update → Exec World (Unit {0})
  save pid u w = let (r, w') = update_state rd pid u w in continue r (λ _ v. (ok tt, v)) w'

  -- a `try` whose handler saves an update
  abbrev pub or_save : Text → (Exc → Update) → Result (Unit {0}) × World → Result (Unit {0}) × World
  or_save pid u (ok t, w) = (ok t, w)
  or_save pid u (err e, w) = save pid (u e) w

  unfoldable pub try_start : Text → PipelineConfig → PipelineState → Exec World (Unit {0})
  unfolding update_state ◌>>=◌
  try_start pid config state = do
    names ← rt.start_live_pipeline config state
    save pid (with_producer (some names.0) (with_consumer (some names.1) (set_status starting)))

  unfoldable pub try_stop : Text → PipelineConfig → PipelineState → Exec World (Unit {0})
  unfolding update_state ◌>>=◌
  try_stop pid config state = do
    stopped_it ← rt.stop_live_pipeline config state
    save pid (with_producer none (with_consumer none (set_status stopped)))

  abbrev pub act_start : Text → PipelineConfig → PipelineState → Exec World (Unit {0})
  act_start pid config state w =
      let (r, w') = update_state rd pid (with_error [] (set_status starting)) w in
      continue r
        (λ _ v.
          or_save pid (λ e. with_error e.message (set_both want_stopped failed))
            (try_start pid config state v))
        w'

  abbrev pub act_stop : Text → PipelineConfig → PipelineState → Exec World (Unit {0})
  act_stop pid config state w =
      let (r, w') = update_state rd pid (set_status stopping) w in
      continue r
        (λ _ v.
          or_save pid (λ e. with_error e.message (set_status failed)) (try_stop pid config state v))
        w'

  abbrev pub act_wanted :
      DesiredState → Text → PipelineConfig → PipelineState → Exec World (Unit {0})
  act_wanted want_running pid config state w =
      if is_up state.status then (ok tt, w) else act_start pid config state w
  act_wanted want_stopped pid config state w =
      if is_already_stopped state.status then (ok tt, w) else act_stop pid config state w

  abbrev pub act_found : Text → Option PipelineState → Option PipelineConfig → Exec World (Unit {0})
  act_found pid none config w = (ok tt, w)
  act_found pid (some state) none w = (ok tt, w)
  act_found pid (some state) (some config) w = act_wanted state.desired_state pid config state w

  -- `_act`, under the pipeline's lock
  unfoldable pub act : Text → Exec World (Unit {0})
  unfolding get_state get_config is_up is_already_stopped try_start try_stop update_state ◌>>=◌
  act pid = do state ← get_state rd pid; config ← get_config rd pid; act_found pid state config
