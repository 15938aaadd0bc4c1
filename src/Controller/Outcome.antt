-- ===== src/Controller/Outcome.antt =====
-- On `_act` of services/task_manager/controller/app/main.py: the state that it leaves in Redis.
use live_streaming_data_pipe.Base.{Text, false, none, some, ◌≡◌, refl, []}
use live_streaming_data_pipe.Base.Exec.{Exc, Result, ok, err, continue, ◌>>=◌}
use live_streaming_data_pipe.Model.{
  PipelineState, starting, stopping, stopped, failed, want_running, want_stopped,
}
use live_streaming_data_pipe.Repo.Redis.{Redis}
use live_streaming_data_pipe.Repo.Store.{Update, apply_update, get_config, get_state, update_state}
use live_streaming_data_pipe.Repo.Laws.{Holds, updated, update_state_lem}
use live_streaming_data_pipe.Runtime.{RuntimeAdapter, IsApart}
use live_streaming_data_pipe.Api.Reply.{
  set_status, set_both, with_error, with_producer, with_consumer,
}
use live_streaming_data_pipe.Api.Outcome.{Known, apart_Holds}
use live_streaming_data_pipe.Controller.{
  is_up, is_already_stopped, save, or_save, try_start, try_stop, act,
}

-- The state after a start, by what the runtime's start gave, and after a stop.
pub data Launched (r : Result (Text × Text)) (t : PipelineState) : Type 0 where
  did_launch :
      (producer consumer : Text)
      → r ≡ ok (producer, consumer)
      → t.desired_state ≡ want_running
      → t.status ≡ starting
      → t.producer_container ≡ some producer
      → t.consumer_container ≡ some consumer
      → Launched r t
  launch_failed :
      (e : Exc)
      → r ≡ err e
      → t.desired_state ≡ want_stopped
      → t.status ≡ failed
      → t.last_error ≡ some e.message
      → Launched r t

pub data Halted (r : Result (Unit {0})) (t : PipelineState) : Type 0 where
  did_halt :
      r ≡ ok tt
      → t.desired_state ≡ want_stopped
      → t.status ≡ stopped
      → t.producer_container ≡ none
      → t.consumer_container ≡ none
      → Halted r t
  halt_failed :
      (e : Exc)
      → r ≡ err e
      → t.desired_state ≡ want_stopped
      → t.status ≡ failed
      → t.last_error ≡ some e.message
      → Halted r t

module _ (rd : Redis) (rt : RuntimeAdapter rd.World) where
  open rd use {World}

  -- The call returns, and Redis holds such a state.
  abbrev pub Leaves : (PipelineState → Type 0) → Text → Result (Unit {0}) × World → Type 0
  Leaves want pid x = (t : PipelineState) × (x.0 ≡ ok tt) × Holds rd pid t x.1 × want t

  save-Leaves :
      (want : PipelineState → Type 0) (pid : Text) (u : Update) (s : PipelineState) (w : World)
      → s.pipeline_id ≡ pid
      → Holds rd pid s w
      → want (updated rd u s w)
      → Leaves want pid (save rd rt pid u w)
  save-Leaves want pid u s w q h k =
      rw ((update_state_lem rd pid u s w q h).0)
        (updated rd u s w, refl, (update_state_lem rd pid u s w q h).1, k)

  after_start_Leaves :
      (pid : Text) (s : PipelineState) (r : Result (Text × Text)) (w : World)
      → s.pipeline_id ≡ pid
      → s.desired_state ≡ want_running
      → Holds rd pid s w
      → Leaves (Launched r) pid (
          or_save rd rt pid
            (λ e. with_error e.message (set_both want_stopped failed))
            (continue r
              (λ names.
                save rd rt pid (
                  with_producer
                    (some names.0)
                    (with_consumer (some names.1) (set_status starting))))
              w))
  unfolding apply_update
  after_start_Leaves pid s (ok (p, c)) w q d h =
      let u = with_producer (some p) (with_consumer (some c) (set_status starting)) in
      rw ((update_state_lem rd pid u s w q h).0) (
        updated rd u s w,
        refl,
        (update_state_lem rd pid u s w q h).1,
        did_launch p c refl d refl refl refl,
      )
  after_start_Leaves pid s (err e) w q d h =
      save-Leaves (Launched (err e)) pid (with_error e.message (set_both want_stopped failed)) s w q
        h (launch_failed e refl refl refl refl)

  after_stop_Leaves :
      (pid : Text) (s : PipelineState) (r : Result (Unit {0})) (w : World)
      → s.pipeline_id ≡ pid
      → s.desired_state ≡ want_stopped
      → Holds rd pid s w
      → Leaves (Halted r) pid (
          or_save rd rt pid
            (λ e. with_error e.message (set_status failed))
            (continue r
              (λ u. save rd rt pid (with_producer none (with_consumer none (set_status stopped))))
              w))
  unfolding apply_update
  after_stop_Leaves pid s (ok t) w q d h =
      let u = with_producer none (with_consumer none (set_status stopped)) in
      rw ((update_state_lem rd pid u s w q h).0) (
        updated rd u s w,
        refl,
        (update_state_lem rd pid u s w q h).1,
        did_halt refl d refl refl refl,
      )
  after_stop_Leaves pid s (err e) w q d h =
      save-Leaves (Halted (err e)) pid (with_error e.message (set_status failed)) s w q h
        (halt_failed e refl d refl refl)

  -- The world after `_act` has stored the state as starting, or as stopping.
  abbrev pub starting_world : Text → World → World
  starting_world pid w = (update_state rd pid (with_error [] (set_status starting)) w).1

  abbrev pub stopping_world : Text → World → World
  stopping_world pid w = (update_state rd pid (set_status stopping) w).1

  module _ (apart : IsApart rd rt) where
    -- If Redis holds a live pipeline that is wanted running and is neither running nor starting,
    -- with its state under its own id, and the runtime adapter writes nothing to Redis, then
    -- `_act` returns, whether the runtime raises or not when it is asked to start the state that
    -- was read, after that is stored as starting. If that call returns, Redis holds a state that is
    -- wanted running, starting, with the names of both containers that the call gave; if it raises,
    -- one that is wanted stopped, failed, and has its message as the last error.
    pub act-Launched :
        (pid : Text) (s : PipelineState) (w : World)
        → (k : Known rd rt pid s w) → s.desired_state ≡ want_running
        → is_up s.status ≡ false
        → Leaves
            (Launched (rt.start_live_pipeline k.config s (starting_world pid w)).0)
            pid
            (act rd rt pid w)
    unfolding act get_state get_config try_start apply_update ◌>>=◌
    act-Launched pid s w k d down =
        let u = with_error [] (set_status starting) in
        let made = update_state_lem rd pid u s w k.own_id k.has_state in
        let w' = (update_state rd pid u w).1 in
        rw (k.has_state, k.has_config)
          (simp (d, down)
            (rw made.0 (
              after_start_Leaves pid (updated rd u s w) (rt.start_live_pipeline k.config s w').0
                (rt.start_live_pipeline k.config s w').1 k.own_id d
                (apart_Holds rd rt pid (updated rd u s w) (apart.at_start k.config s _ w')
                  made.1))))

    -- If Redis holds a live pipeline that is wanted stopped and is running or starting, with its
    -- state under its own id, and the runtime adapter writes nothing to Redis, then `_act`
    -- returns, whether the runtime raises or not when it is asked to stop the state that was read,
    -- after that is stored as stopping. If that call returns, Redis holds a state that is wanted
    -- stopped, stopped, with no containers; if it raises, one that is wanted stopped, failed, and has
    -- its message as the last error.
    pub act-Halted :
        (pid : Text) (s : PipelineState) (w : World)
        → (k : Known rd rt pid s w) → s.desired_state ≡ want_stopped
        → is_already_stopped s.status ≡ false
        → Leaves
            (Halted (rt.stop_live_pipeline k.config s (stopping_world pid w)).0)
            pid
            (act rd rt pid w)
    unfolding act get_state get_config try_stop apply_update ◌>>=◌
    act-Halted pid s w k d up =
        let u = set_status stopping in
        let made = update_state_lem rd pid u s w k.own_id k.has_state in
        let w' = (update_state rd pid u w).1 in
        rw (k.has_state, k.has_config)
          (simp (d, up)
            (rw made.0 (
              after_stop_Leaves pid (updated rd u s w) (rt.stop_live_pipeline k.config s w').0
                (rt.stop_live_pipeline k.config s w').1 k.own_id d
                (apart_Holds rd rt pid (updated rd u s w) (apart.at_stop k.config s _ w') made.1))))
