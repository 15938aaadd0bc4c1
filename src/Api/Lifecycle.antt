-- ===== src/Api/Lifecycle.antt =====
-- `start_pipeline`, `stop_pipeline` and `restart_pipeline`.
use live_streaming_data_pipe.Base.{
  Text, codes, Bool, true, false, Option, none, some, [], ◌++◌, if◌then◌else◌,
}
use live_streaming_data_pipe.Base.Exec.{Exc, Result, ok, err, Exec, continue}
use live_streaming_data_pipe.Model.{
  PipelineConfig, PipelineState, normal, live, starting, running, stopping, stopped, failed,
  DesiredState, want_running, want_stopped,
}
use live_streaming_data_pipe.Repo.Redis.{Redis}
use live_streaming_data_pipe.Repo.Store.{
  Update, get_config, get_state, update_state, publish_state_event,
}
use live_streaming_data_pipe.Runtime.{RuntimeAdapter}
use live_streaming_data_pipe.Api.Reply.{
  Reply, message, http_error, not_here, not_found, set_status, set_both, with_error, with_producer,
}

-- `state and state.desired_state == d`
unfoldable pub wants : DesiredState → Option PipelineState → Bool
wants d none = false
wants want_running (some s) = elim s.desired_state [ want_running ↦ true | want_stopped ↦ false ]
wants want_stopped (some s) = elim s.desired_state [ want_running ↦ false | want_stopped ↦ true ]

module _ (rd : Redis) (rt : RuntimeAdapter rd.World) where
  open rd use {World}

  -- `update_state`, and a reply on the state that it returns
  abbrev pub update_then : Text → Update → (PipelineState → Exec World Reply) → Exec World Reply
  update_then pid u f w = let (r, w') = update_state rd pid u w in continue r f w'

  -- the handler of a failed runtime call
  abbrev pub fail_with : Text → Text → Update → Exc → Exec World Reply
  fail_with what pid u e =
      update_then pid (with_error e.message u) (λ s w. (ok (http_error 502 (what ++ e.message)), w))

  -- what a handler does after a runtime call that returned: update, publish, reply
  abbrev pub announce : Text → Update → Text → Text → Exec World Reply
  announce pid u event text =
      update_then pid u (λ s w. (ok (message text s), publish_state_event rd s event w))

  -- The guards that the three handlers share: the pipeline is known and live.
  abbrev pub if_live :
      (PipelineConfig → Exec World Reply) → Option PipelineConfig → Exec World Reply
  if_live act none w = (ok (http_error 404 not_found), w)
  if_live act (some config) w = elim config.pipeline_type [
    | normal ↦ (ok (http_error 400 not_here), w)
    | live ↦ act config w
  ]

  abbrev pub guarded : (PipelineConfig → Exec World Reply) → Text → Exec World Reply
  guarded act pid w = let (r, w') = get_config rd pid w in continue r (if_live act) w'

  abbrev pub after_start : Text → Result (Text × Text) × World → Result Reply × World
  after_start pid (ok (producer, consumer), w) =
      announce pid (with_producer (some producer) (with_error [] (set_status running)))
        (codes "start") (codes "Started") w
  after_start pid (err e, w) =
      fail_with (codes "failed to start pipeline: ") pid (set_both want_stopped failed) e w

  abbrev pub start_known : Text → PipelineConfig → Exec World Reply
  start_known pid config =
      update_then pid (with_error [] (set_both want_running starting))
        (λ s w. after_start pid (rt.start_live_pipeline config s w))

  abbrev pub start_unless_running : Text → PipelineConfig → Option PipelineState → Exec World Reply
  start_unless_running pid config none w = start_known pid config w
  start_unless_running pid config (some s) w =
      if wants want_running (some s)
      then (ok (message (codes "Already running") s), w)
      else start_known pid config w

  unfoldable pub start_pipeline : Text → Exec World Reply
  unfolding get_config get_state wants publish_state_event
  start_pipeline pid =
      guarded
        (λ config w.
          let (r, w') = get_state rd pid w in continue r (start_unless_running pid config) w')
        pid

  abbrev pub after_stop : Text → Result (Unit {0}) × World → Result Reply × World
  after_stop pid (ok u, w) =
      announce pid (with_producer none (with_error [] (set_status stopped))) (codes "stop")
        (codes "Stopped") w
  after_stop pid (err e, w) =
      fail_with (codes "failed to stop pipeline: ") pid (set_status failed) e w

  abbrev pub stop_known : Text → PipelineConfig → Exec World Reply
  stop_known pid config =
      update_then pid (set_both want_stopped stopping)
        (λ s w. after_stop pid (rt.stop_live_pipeline config s w))

  abbrev pub stop_unless_stopped : Text → PipelineConfig → Option PipelineState → Exec World Reply
  stop_unless_stopped pid config none w = stop_known pid config w
  stop_unless_stopped pid config (some s) w =
      if wants want_stopped (some s)
      then (ok (message (codes "Already stopped") s), w)
      else stop_known pid config w

  unfoldable pub stop_pipeline : Text → Exec World Reply
  unfolding get_config get_state wants publish_state_event
  stop_pipeline pid =
      guarded
        (λ config w.
          let (r, w') = get_state rd pid w in continue r (stop_unless_stopped pid config) w')
        pid

  abbrev pub after_restart : Text → Result (Text × Text) × World → Result Reply × World
  after_restart pid (ok (producer, consumer), w) =
      announce pid (with_producer (some producer) (with_error [] (set_both want_running running)))
        (codes "start") (codes "Restarted") w
  after_restart pid (err e, w) =
      fail_with (codes "failed to restart pipeline: ") pid (set_status failed) e w

  abbrev pub restart_known : Text → PipelineConfig → Option PipelineState → Exec World Reply
  restart_known pid config none w = (ok (http_error 404 (codes "Pipeline state not found")), w)
  restart_known pid config (some s) w = after_restart pid (rt.restart_live_pipeline config s w)

  unfoldable pub restart_pipeline : Text → Exec World Reply
  unfolding get_config get_state publish_state_event
  restart_pipeline pid =
      guarded
        (λ config w. let (r, w') = get_state rd pid w in continue r (restart_known pid config) w')
        pid
