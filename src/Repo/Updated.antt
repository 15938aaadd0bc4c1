-- ===== src/Repo/Updated.antt =====
-- On `update_state` of services/task_manager/common/app_common/redis_repo.py: the fields of the state that it
-- returns, one by one.
use live_streaming_data_pipe.Base.{◌≡◌, refl, Text, Option, none, some}
use live_streaming_data_pipe.Base.Exec.{ok}
use live_streaming_data_pipe.Model.{PipelineState}
use live_streaming_data_pipe.Repo.Redis.{Redis}
use live_streaming_data_pipe.Repo.Store.{Update, or_keep, or_keep_some, apply_update, update_state}
use live_streaming_data_pipe.Repo.Laws.{Holds, updated, update_state_lem}

-- The new value of a field is the argument, or the old value when the argument is left out.
abbrev pub Replaces {ℓ} : {A : Type ℓ} → Option A → A → A → Type ℓ
Replaces none old new = new ≡ old
Replaces (some a) old new = new ≡ a

-- `last_error` takes a text, and no argument can take it away.
abbrev pub ReplacesText : Option Text → Option Text → Option Text → Type 0
ReplacesText none old new = new ≡ old
ReplacesText (some t) old new = new ≡ some t

pub record IsUpdated (u : Update) (now : Text) (s t : PipelineState) : Type 0 where
  pub desired_state : Replaces u.desired_state s.desired_state t.desired_state
  pub status : Replaces u.status s.status t.status
  pub last_error : ReplacesText u.last_error s.last_error t.last_error
  pub producer : Replaces u.producer_container s.producer_container t.producer_container
  pub consumer : Replaces u.consumer_container s.consumer_container t.consumer_container
  pub stamped : t.updated_at ≡ now
  pub same_id : t.pipeline_id ≡ s.pipeline_id
  pub same_type : t.pipeline_type ≡ s.pipeline_type
  pub same_topic : t.topic ≡ s.topic
  pub same_heartbeat : t.last_heartbeat_at ≡ s.last_heartbeat_at

or_keep-Replaces {ℓ} : {A : Type ℓ} (o : Option A) (a : A) → Replaces o a (or_keep o a)
or_keep-Replaces none a = refl
or_keep-Replaces (some b) a = refl

or_keep_some-ReplacesText : (o a : Option Text) → ReplacesText o a (or_keep_some o a)
or_keep_some-ReplacesText none a = refl
or_keep_some-ReplacesText (some t) a = refl

module _ (rd : Redis) where
  open rd use {World}

  updated-IsUpdated :
      (u : Update) (s : PipelineState) (w : World)
      → IsUpdated u (rd.utc_now_iso w).0 s (updated rd u s w)
  unfolding apply_update
  updated-IsUpdated u s w = record {
    desired_state = or_keep-Replaces u.desired_state s.desired_state;
    status = or_keep-Replaces u.status s.status;
    last_error = or_keep_some-ReplacesText u.last_error s.last_error;
    producer = or_keep-Replaces u.producer_container s.producer_container;
    consumer = or_keep-Replaces u.consumer_container s.consumer_container;
    stamped = refl;
    same_id = refl;
    same_type = refl;
    same_topic = refl;
    same_heartbeat = refl;
  }

  -- If Redis holds the state for its pipeline, under the state's own id, then `update_state` returns,
  -- and Redis holds, a state in which the desired state, the status, the error and the two containers
  -- are the arguments, or the old values where an argument is left out, the time is the clock's, and
  -- the id, the type, the topic and the heartbeat are the old ones.
  pub update_state-IsUpdated :
      (pid : Text) (u : Update) (s : PipelineState) (w : World)
      → s.pipeline_id ≡ pid
      → Holds rd pid s w
      → (t : PipelineState) × ((update_state rd pid u w).0 ≡ ok t)
        × Holds rd pid t (update_state rd pid u w).1
        × IsUpdated u (rd.utc_now_iso w).0 s t
  update_state-IsUpdated pid u s w e h =
      let (returned, held) = update_state_lem rd pid u s w e h in
      (updated rd u s w, returned, held, updated-IsUpdated u s w)
