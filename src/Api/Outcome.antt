-- ===== src/Api/Outcome.antt =====
-- On the task manager's API (services/task_manager/task_manager/app/main.py): the state that the
-- handlers leave in Redis.
use live_streaming_data_pipe.Base.{Text, codes, none, some, ◌≡◌, refl, ◌++◌, []}
use live_streaming_data_pipe.Base.Exec.{Exc, Result, ok, err, Exec}
use live_streaming_data_pipe.Model.{
  PipelineConfig, PipelineState, live, starting, stopping, running, stopped, failed, want_running,
  want_stopped,
}
use live_streaming_data_pipe.Repo.Keys.{pipeline_state_key}
use live_streaming_data_pipe.Repo.Redis.{Redis}
use live_streaming_data_pipe.Repo.Store.{Update, apply_update, get_config, get_state, update_state}
use live_streaming_data_pipe.Repo.Laws.{Holds, updated, update_state_lem, publish-Holds}
use live_streaming_data_pipe.Runtime.{RuntimeAdapter, IsApart}
use live_streaming_data_pipe.Api.Reply.{
  Reply, message, http_error, set_status, set_both, with_error, with_producer,
}
use live_streaming_data_pipe.Api.Lifecycle.{
  wants, if_live, guarded, update_then, fail_with, announce, after_start, start_pipeline,
  after_stop, stop_pipeline,
}

-- An answer of a start beside the state that Redis holds then, by what the runtime's start gave.
pub data StartEnds (r : Result (Text × Text)) : Reply → PipelineState → Type 0 where
  did_start :
      (t : PipelineState) (producer consumer : Text)
      → r ≡ ok (producer, consumer)
      → t.desired_state ≡ want_running
      → t.status ≡ running
      → t.producer_container ≡ some producer
      → t.last_error ≡ some []
      → StartEnds r (message (codes "Started") t) t
  start_failed :
      (t : PipelineState) (e : Exc)
      → r ≡ err e
      → t.desired_state ≡ want_stopped
      → t.status ≡ failed
      → t.last_error ≡ some e.message
      → StartEnds r (http_error 502 (codes "failed to start pipeline: " ++ e.message)) t

-- The same of a stop.
pub data StopEnds (r : Result (Unit {0})) : Reply → PipelineState → Type 0 where
  did_stop :
      (t : PipelineState)
      → r ≡ ok tt
      → t.desired_state ≡ want_stopped
      → t.status ≡ stopped
      → t.producer_container ≡ none
      → t.last_error ≡ some []
      → StopEnds r (message (codes "Stopped") t) t
  stop_failed :
      (t : PipelineState) (e : Exc)
      → r ≡ err e
      → t.desired_state ≡ want_stopped
      → t.status ≡ failed
      → t.last_error ≡ some e.message
      → StopEnds r (http_error 502 (codes "failed to stop pipeline: " ++ e.message)) t

module _ (rd : Redis) (rt : RuntimeAdapter rd.World) where
  open rd use {World}

  -- The call answers, and Redis holds a state that goes with the answer.
  abbrev pub Ends : (Reply → PipelineState → Type 0) → Text → Result Reply × World → Type 0
  Ends want pid x = (r : Reply) × (t : PipelineState) × (x.0 ≡ ok r) × Holds rd pid t x.1 × want r t

  live_only :
      (act : PipelineConfig → Exec World Reply) (c : PipelineConfig) (w : World)
      → c.pipeline_type ≡ live
      → if_live rd rt act (some c) w ≡ act c w
  live_only act c w e = simp e refl

  -- A state stays where the text that it is read from stays.
  pub apart_Holds :
      (pid : Text) (s : PipelineState) {w w' : World}
      → rd.get (pipeline_state_key pid) w' ≡ rd.get (pipeline_state_key pid) w
      → Holds rd pid s w
      → Holds rd pid s w'
  unfolding get_state
  apart_Holds pid s e h = rw e h

  update_then_lem :
      (pid : Text) (u : Update) (f : PipelineState → Exec World Reply) (s : PipelineState)
      (w : World)
      → s.pipeline_id ≡ pid
      → Holds rd pid s w
      → update_then rd rt pid u f w ≡ f (updated rd u s w) (update_state rd pid u w).1
  update_then_lem pid u f s w e h = rw ((update_state_lem rd pid u s w e h).0) refl

  fail_with-Ends :
      (want : Reply → PipelineState → Type 0) (what pid : Text) (u : Update) (e : Exc)
      (s : PipelineState) (w : World)
      → s.pipeline_id ≡ pid
      → Holds rd pid s w
      → want (http_error 502 (what ++ e.message)) (updated rd (with_error e.message u) s w)
      → Ends want pid (fail_with rd rt what pid u e w)
  fail_with-Ends want what pid u e s w q h k =
      rw ((update_state_lem rd pid (with_error e.message u) s w q h).0)
        (_, _, refl, (update_state_lem rd pid (with_error e.message u) s w q h).1, k)

  announce-Ends :
      (want : Reply → PipelineState → Type 0) (pid : Text) (u : Update) (event text : Text)
      (s : PipelineState) (w : World)
      → s.pipeline_id ≡ pid
      → Holds rd pid s w
      → want (message text (updated rd u s w)) (updated rd u s w)
      → Ends want pid (announce rd rt pid u event text w)
  announce-Ends want pid u event text s w q h k = rw ((update_state_lem rd pid u s w q h).0) (
    _,
    _,
    refl,
    publish-Holds rd pid (updated rd u s w) (updated rd u s w) event (update_state rd pid u w).1
        (update_state_lem rd pid u s w q h).1,
    k,
  )

  after_start-Ends :
      (pid : Text) (s : PipelineState) (r : Result (Text × Text)) (w : World)
      → s.pipeline_id ≡ pid
      → s.desired_state ≡ want_running
      → Holds rd pid s w
      → Ends (StartEnds r) pid (after_start rd rt pid (r, w))
  unfolding apply_update
  after_start-Ends pid s (ok (producer, consumer)) w q d h =
      announce-Ends (StartEnds (ok (producer, consumer))) pid
        (with_producer (some producer) (with_error [] (set_status running))) (codes "start")
        (codes "Started") s w q h (did_start _ producer consumer refl d refl refl refl)
  after_start-Ends pid s (err e) w q d h =
      fail_with-Ends (StartEnds (err e)) (codes "failed to start pipeline: ") pid
        (set_both want_stopped failed) e s w q h (start_failed _ e refl refl refl refl)

  after_stop-Ends :
      (pid : Text) (s : PipelineState) (r : Result (Unit {0})) (w : World)
      → s.pipeline_id ≡ pid
      → s.desired_state ≡ want_stopped
      → Holds rd pid s w
      → Ends (StopEnds r) pid (after_stop rd rt pid (r, w))
  unfolding apply_update
  after_stop-Ends pid s (ok u) w q d h =
      announce-Ends (StopEnds (ok tt)) pid (with_producer none (with_error [] (set_status stopped)))
        (codes "stop") (codes "Stopped") s w q h (did_stop _ refl d refl refl refl)
  after_stop-Ends pid s (err e) w q d h =
      fail_with-Ends (StopEnds (err e)) (codes "failed to stop pipeline: ") pid (set_status failed)
        e s w q h (stop_failed _ e refl d refl refl)

  -- Redis holds a configuration of a live pipeline, and its state, which is stored under its own id.
  pub record Known (pid : Text) (s : PipelineState) (w : World) : Type 0 where
    pub config : PipelineConfig
    pub has_config : (get_config rd pid w).0 ≡ ok (some config)
    pub is_live : config.pipeline_type ≡ live
    pub own_id : s.pipeline_id ≡ pid
    pub has_state : Holds rd pid s w

  guarded_lem :
      (act : PipelineConfig → Exec World Reply) (pid : Text) (s : PipelineState) (w : World)
      (k : Known pid s w)
      → guarded rd rt act pid w ≡ act k.config w
  unfolding get_config
  guarded_lem act pid s w k = rw k.has_config (live_only act k.config w k.is_live)

  -- The state that a start stores before it calls the runtime, and the world after that.
  abbrev pub starting_state : PipelineState → World → PipelineState
  starting_state s w = record s {
    desired_state = want_running;
    status = starting;
    last_error = some [];
    updated_at = (rd.utc_now_iso w).0;
  }

  abbrev pub starting_world : Text → World → World
  starting_world pid w = (update_state rd pid (with_error [] (set_both want_running starting)) w).1

  -- The same of a stop.
  abbrev pub stopping_state : PipelineState → World → PipelineState
  stopping_state s w = record s {
    desired_state = want_stopped;
    status = stopping;
    updated_at = (rd.utc_now_iso w).0;
  }

  abbrev pub stopping_world : Text → World → World
  stopping_world pid w = (update_state rd pid (set_both want_stopped stopping) w).1

  module _ (apart : IsApart rd rt) where
    -- If Redis holds a live pipeline that is wanted stopped, with its state under its own id, and
    -- the runtime adapter writes nothing to Redis, then `start_pipeline` answers, whether the
    -- runtime raises or not, when it is asked to start the state that is stored as wanted running and
    -- starting, with no error. If that call returns, the answer is "Started", and Redis holds the
    -- state of the answer, wanted running, running, with the producer that the call named and the
    -- empty error; if it raises, the answer is 502 with its message, and Redis holds a state that is
    -- wanted stopped, failed, and has that message as its last error.
    pub start_pipeline-Ends :
        (pid : Text) (s : PipelineState) (w : World)
        → (k : Known pid s w) → s.desired_state ≡ want_stopped
        → Ends
            (StartEnds
              (rt.start_live_pipeline k.config (starting_state s w) (starting_world pid w)).0)
            pid
            (start_pipeline rd rt pid w)
    unfolding start_pipeline wants get_state apply_update
    start_pipeline-Ends pid s w k d =
        let u = with_error [] (set_both want_running starting) in
        let made = update_state_lem rd pid u s w k.own_id k.has_state in
        let s' = updated rd u s w in
        let w' = (update_state rd pid u w).1 in
        rw (guarded_lem _ pid s w k, k.has_state)
          (simp d (
            rw made.0 (
              after_start-Ends pid s' (rt.start_live_pipeline k.config s' w').0
                (rt.start_live_pipeline k.config s' w').1 k.own_id refl
                (apart_Holds pid s' (apart.at_start k.config s' _ w') made.1))))

    -- If Redis holds a live pipeline that is wanted running, with its state under its own id, and
    -- the runtime adapter writes nothing to Redis, then `stop_pipeline` answers, whether the
    -- runtime raises or not, when it is asked to stop the state that is stored as wanted stopped and
    -- stopping. If that call returns, the answer is "Stopped", and Redis holds the state of the
    -- answer, wanted stopped, stopped, with no producer and the empty error; if it raises, the answer
    -- is 502 with its message, and Redis holds a state that is wanted stopped, failed, and has that
    -- message as its last error.
    pub stop_pipeline-Ends :
        (pid : Text) (s : PipelineState) (w : World)
        → (k : Known pid s w) → s.desired_state ≡ want_running
        → Ends
            (StopEnds
              (rt.stop_live_pipeline k.config (stopping_state s w) (stopping_world pid w)).0)
            pid
            (stop_pipeline rd rt pid w)
    unfolding stop_pipeline wants get_state apply_update
    stop_pipeline-Ends pid s w k d =
        let u = set_both want_stopped stopping in
        let made = update_state_lem rd pid u s w k.own_id k.has_state in
        let s' = updated rd u s w in
        let w' = (update_state rd pid u w).1 in
        rw (guarded_lem _ pid s w k, k.has_state)
          (simp d (
            rw made.0 (
              after_stop-Ends pid s' (rt.stop_live_pipeline k.config s' w').0
                (rt.stop_live_pipeline k.config s' w').1 k.own_id refl
                (apart_Holds pid s' (apart.at_stop k.config s' _ w') made.1))))
