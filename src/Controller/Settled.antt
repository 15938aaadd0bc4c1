-- ===== src/Controller/Settled.antt =====
-- On `_act` and `_reconcile_loop` of services/task_manager/controller/app/main.py together: an action
-- leaves nothing for the loop to do.
use live_streaming_data_pipe.Base.{
  ◌≡◌, refl, ap, Text, Bool, true, false, Bool-cases, ◌&&◌, not, some, inl, inr,
}
use live_streaming_data_pipe.Base.Exec.{Result, ◌>>=◌}
use live_streaming_data_pipe.Model.{
  PipelineConfig, PipelineState, PipelineStatus, created, starting, running, stopping, stopped,
  failed, DesiredState, want_running, want_stopped,
}
use live_streaming_data_pipe.Repo.Redis.{Redis}
use live_streaming_data_pipe.Repo.Store.{get_config, get_state}
use live_streaming_data_pipe.Runtime.{RuntimeAdapter, IsApart}
use live_streaming_data_pipe.Api.Outcome.{Known}
use live_streaming_data_pipe.Controller.{
  is_idle, is_already_stopped, is_up, is_live_type, needs, needs_act, act,
}
use live_streaming_data_pipe.Controller.Outcome.{
  Launched, did_launch, launch_failed, starting_world, stopping_world, Halted, did_halt,
  halt_failed, Leaves, act-Launched, act-Halted,
}

-- Whatever its configuration says, `_reconcile_loop` leaves a pipeline in this state alone.
abbrev pub Settled : PipelineState → Type 0
Settled t = (c : PipelineConfig) → needs_act (some t) (some c) ≡ false

and_false : (b : Bool) → (b && false) ≡ false
and_false true = refl
and_false false = refl

Settled-needs : (t : PipelineState) → needs t.desired_state t.status ≡ false → Settled t
unfolding needs_act
Settled-needs t h c = rw h (and_false (is_live_type c.pipeline_type))

needs_at :
    (t : PipelineState) (d : DesiredState) (s : PipelineStatus)
    → t.desired_state ≡ d
    → t.status ≡ s
    → needs d s ≡ false
    → Settled t
needs_at t d s p q h = Settled-needs t (rw (p, q) h)

Launched-Settled : (r : Result (Text × Text)) (t : PipelineState) → Launched r t → Settled t
unfolding is_idle is_already_stopped
Launched-Settled r t (did_launch p c q d s x y) = needs_at t want_running starting d s refl
Launched-Settled r t (launch_failed e q d s x) = needs_at t want_stopped failed d s refl

Halted-Settled : (r : Result (Unit {0})) (t : PipelineState) → Halted r t → Settled t
unfolding is_already_stopped
Halted-Settled r t (did_halt q d s x y) = needs_at t want_stopped stopped d s refl
Halted-Settled r t (halt_failed e q d s x) = needs_at t want_stopped failed d s refl

is_up-not_idle : (s : PipelineStatus) → is_up s ≡ true → is_idle s ≡ false
unfolding is_up is_idle
is_up-not_idle running h = refl
is_up-not_idle starting h = refl
is_up-not_idle created h = cc
is_up-not_idle stopping h = refl
is_up-not_idle stopped h = cc
is_up-not_idle failed h = cc

module _ (rd : Redis) (rt : RuntimeAdapter rd.World) (apart : IsApart rd rt) where
  open rd use {World}

  Leaves-Settled :
      (want : PipelineState → Type 0) (pid : Text) (x : Result (Unit {0}) × World)
      → ((t : PipelineState) → want t → Settled t)
      → Leaves rd rt want pid x
      → Leaves rd rt Settled pid x
  Leaves-Settled want pid x f (t, o, h, k) = (t, o, h, f t k)

  running-Settled :
      (pid : Text) (s : PipelineState) (w : World)
      → Known rd rt pid s w
      → s.desired_state ≡ want_running
      → Leaves rd rt Settled pid (act rd rt pid w)
  unfolding act get_state get_config ◌>>=◌
  running-Settled pid s w k d = elim (Bool-cases (is_up s.status)) [
    | inl up ↦
        rw (k.has_state, k.has_config)
          (simp (d, up)
            (
              s,
              refl,
              k.has_state,
              needs_at s want_running s.status d refl (is_up-not_idle s.status up),
            ))
    | inr down ↦
        Leaves-Settled (Launched (rt.start_live_pipeline k.config s (starting_world rd rt pid w)).0)
          pid (act rd rt pid w)
          (Launched-Settled (rt.start_live_pipeline k.config s (starting_world rd rt pid w)).0)
          (act-Launched rd rt apart pid s w k d down)
  ]

  stopped-Settled :
      (pid : Text) (s : PipelineState) (w : World)
      → Known rd rt pid s w
      → s.desired_state ≡ want_stopped
      → Leaves rd rt Settled pid (act rd rt pid w)
  unfolding act get_state get_config ◌>>=◌
  stopped-Settled pid s w k d = elim (Bool-cases (is_already_stopped s.status)) [
    | inl already ↦
        rw (k.has_state, k.has_config)
          (simp (d, already)
            (s, refl, k.has_state, needs_at s want_stopped s.status d refl (ap not already)))
    | inr up ↦
        Leaves-Settled (Halted (rt.stop_live_pipeline k.config s (stopping_world rd rt pid w)).0)
          pid (act rd rt pid w)
          (Halted-Settled (rt.stop_live_pipeline k.config s (stopping_world rd rt pid w)).0)
          (act-Halted rd rt apart pid s w k d up)
  ]

  -- If Redis holds a live pipeline, with its state under its own id, and the runtime adapter writes nothing
  -- to Redis, then `_act` returns, whatever the state and whether the runtime raises or not, and the
  -- state that Redis then holds is one that `_reconcile_loop` leaves alone.
  pub act-Settled :
      (pid : Text) (s : PipelineState) (w : World)
      → Known rd rt pid s w
      → Leaves rd rt Settled pid (act rd rt pid w)
  act-Settled pid s w k = by_wish s.desired_state refl
    where
      by_wish :
          (d : DesiredState) → s.desired_state ≡ d → Leaves rd rt Settled pid (act rd rt pid w)
      by_wish want_running d = running-Settled pid s w k d
      by_wish want_stopped d = stopped-Settled pid s w k d
