-- ===== src/Repo/Store.antt =====
-- services/task_manager/common/app_common/redis_repo.py: `PipelineRedisRepository`.
use live_streaming_data_pipe.Base.{
  ltb, Text, codes, text_eq, Bool, true, false, Option, none, some, List, [], ◌∷◌, ◌++◌, ◌==◌,
  if◌then◌else◌,
}
use live_streaming_data_pipe.Base.Int.{ℤ, pos, negsuc, int_str}
use live_streaming_data_pipe.Base.Exec.{
  Exc, value_error, key_error, Result, ok, err, Exec, pure, continue, ◌>>=◌,
}
use live_streaming_data_pipe.Model.{
  PipelineConfig, PipelineState, PipelineStatus, DesiredState, created, want_stopped,
}
use live_streaming_data_pipe.Repo.Keys.{
  events_channel, pipeline_config_key, pipeline_state_key, collection_counter_key,
}
use live_streaming_data_pipe.Repo.Redis.{Redis}

-- The keyword arguments of `update_state`; `none` is an argument left out.
pub record Update : Type 0 where
  pub desired_state : Option DesiredState
  pub status : Option PipelineStatus
  pub last_error : Option Text
  pub producer_container : Option (Option Text)
  pub consumer_container : Option (Option Text)

abbrev pub no_update : Update
no_update = record {
  desired_state = none;
  status = none;
  last_error = none;
  producer_container = none;
  consumer_container = none;
}

abbrev pub or_keep {ℓ} : {A : Type ℓ} → Option A → A → A
or_keep none a = a
or_keep (some b) a = b

abbrev pub or_keep_some {ℓ} : {A : Type ℓ} → Option A → Option A → Option A
or_keep_some none a = a
or_keep_some (some b) a = some b

-- the assignments in `update_state`
unfoldable pub apply_update : Update → PipelineState → PipelineState
apply_update u s = record s {
  desired_state = or_keep u.desired_state s.desired_state;
  status = or_keep u.status s.status;
  last_error = or_keep_some u.last_error s.last_error;
  producer_container = or_keep u.producer_container s.producer_container;
  consumer_container = or_keep u.consumer_container s.consumer_container;
}

abbrev pub already_exists : Text → Exc
already_exists pid = record {
  kind = value_error;
  name = codes "ValueError";
  message = codes "Pipeline already exists: " ++ pid;
}

abbrev pub state_not_found : Text → Exc
state_not_found pid = record {
  kind = key_error;
  name = codes "KeyError";
  message = codes "Pipeline state not found: " ++ pid;
}

-- `a` before `b` in the order of code points
unfoldable pub text_le : Text → Text → Bool
text_le [] b = true
text_le (c ∷ a) [] = false
text_le (c ∷ a) (d ∷ b) = if c == d then text_le a b else ltb c d

-- `sorted`, by insertion
unfoldable pub insert_sorted : Text → List Text → List Text
unfolding text_le
insert_sorted x [] = x ∷ []
insert_sorted x (y ∷ ys) = if text_le x y then x ∷ y ∷ ys else y ∷ insert_sorted x ys

unfoldable pub sorted : List Text → List Text
unfolding insert_sorted
sorted [] = []
sorted (x ∷ xs) = insert_sorted x (sorted xs)

-- `text.split(":", 2)[1]`: what stands between the first two colons. Each key that `KEYS` returns has
-- two colons at least.
unfoldable pub up_to_colon : Text → Text
up_to_colon [] = []
up_to_colon (c ∷ s) = let rest = up_to_colon s in if c == b':' then [] else c ∷ rest

unfoldable pub second_field : Text → Text
unfolding up_to_colon
second_field [] = []
second_field (c ∷ s) = if c == b':' then up_to_colon s else second_field s

unfoldable pub ids_of : List Text → List Text
unfolding second_field
ids_of [] = []
ids_of (k ∷ ks) = second_field k ∷ ids_of ks

-- `max(used, default=0)` on integers
abbrev pub int_max : ℤ → ℤ → ℤ
int_max (pos a) (pos b) = if ltb a b then pos b else pos a
int_max (pos a) (negsuc b) = pos a
int_max (negsuc a) (pos b) = pos b
int_max (negsuc a) (negsuc b) = if ltb b a then negsuc b else negsuc a

unfoldable pub max_of : ℤ → List ℤ → ℤ
max_of best [] = best
max_of best (n ∷ ns) = max_of (int_max best n) ns

unfoldable pub max_or_zero : List ℤ → ℤ
unfolding max_of
max_or_zero [] = pos 0
max_or_zero (n ∷ ns) = max_of n ns

abbrev pub present : {A : Type 0} → Result A → Result (Option A)
present (ok a) = ok (some a)
present (err e) = err e

-- `model_validate_json(raw) if raw else None`
abbrev pub read : {A : Type 0} → (Text → Result A) → Option Text → Result (Option A)
read load none = ok none
read load (some []) = ok none
read load (some (c ∷ s)) = present (load (c ∷ s))

module _ (rd : Redis) where
  open rd use {World}

  unfoldable pub get_config : Text → Exec World (Option PipelineConfig)
  get_config pid w = (read rd.load_config (rd.get (pipeline_config_key pid) w), w)

  unfoldable pub get_state : Text → Exec World (Option PipelineState)
  get_state pid w = (read rd.load_state (rd.get (pipeline_state_key pid) w), w)

  -- The new state of `create_pipeline`, at a reading of the clock.
  abbrev pub initial_state : PipelineConfig → Text → PipelineState
  initial_state config now = record {
    pipeline_id = config.pipeline_id;
    pipeline_type = config.pipeline_type;
    desired_state = want_stopped;
    status = created;
    topic = config.topic;
    producer_container = none;
    consumer_container = none;
    last_heartbeat_at = none;
    last_error = none;
    updated_at = now;
  }

  abbrev pub store_new : PipelineConfig → Exec World PipelineState
  store_new config w =
      let (now, w') = rd.utc_now_iso w in
      let state = initial_state config now in
      let w'' = rd.set (pipeline_config_key config.pipeline_id) (rd.dump_config config) w' in
      (ok state, rd.set (pipeline_state_key config.pipeline_id) (rd.dump_state state) w'')

  abbrev pub unless_found : PipelineConfig → Option PipelineConfig → Exec World PipelineState
  unless_found config none w = store_new config w
  unless_found config (some old) w = (err (already_exists config.pipeline_id), w)

  unfoldable pub create_pipeline : PipelineConfig → Exec World PipelineState
  unfolding get_config
  create_pipeline config w =
      let (found, w') = get_config config.pipeline_id w in continue found (unless_found config) w'

  unfoldable pub list_pipeline_ids : World → List Text
  unfolding sorted ids_of
  list_pipeline_ids w = sorted (ids_of (rd.config_keys w))

  abbrev pub add_number : Text → Option PipelineConfig → List ℤ → List ℤ
  add_number user_id none used = used
  add_number user_id (some c) used =
      if text_eq c.user_id user_id then c.collection_number ∷ used else used

  -- `used` of `next_collection_number`
  unfoldable pub used_numbers : Text → List Text → Exec World (List ℤ)
  unfolding get_config ◌>>=◌
  used_numbers user_id [] = pure []
  used_numbers user_id (pid ∷ pids) = do
    config ← get_config pid
    used ← used_numbers user_id pids
    pure (add_number user_id config used)

  abbrev pub seed : Text → Option Text → Exec World (Unit {0})
  seed user_id (some raw) w = (ok tt, w)
  seed user_id none w =
      let (used, w') = used_numbers user_id (list_pipeline_ids w) w in
      continue used
        (λ ns v. (ok tt, rd.set_nx (collection_counter_key user_id) (int_str (max_or_zero ns)) v))
        w'

  unfoldable pub next_collection_number : Text → Exec World ℤ
  unfolding used_numbers list_pipeline_ids max_or_zero ◌>>=◌
  next_collection_number user_id w =
      let (seeded, w') = seed user_id (rd.get (collection_counter_key user_id) w) w in
      continue seeded
        (λ _ v. let (n, v') = rd.incr (collection_counter_key user_id) v in (ok n, v')) w'

  unfoldable pub save_state : PipelineState → Exec World PipelineState
  save_state state w =
      let (now, w') = rd.utc_now_iso w in
      let state' : PipelineState = record state { updated_at = now } in
      (ok state', rd.set (pipeline_state_key state.pipeline_id) (rd.dump_state state') w')

  abbrev pub save_update : Text → Update → Option PipelineState → Exec World PipelineState
  save_update pid u none w = (err (state_not_found pid), w)
  save_update pid u (some state) w = save_state (apply_update u state) w

  unfoldable pub update_state : Text → Update → Exec World PipelineState
  unfolding get_state save_state apply_update
  update_state pid u w = let (found, w') = get_state pid w in continue found (save_update pid u) w'

  unfoldable pub delete_pipeline : Text → World → World
  delete_pipeline pid w = rd.delete (pipeline_state_key pid) (rd.delete (pipeline_config_key pid) w)

  unfoldable pub publish_state_event : PipelineState → Text → World → World
  publish_state_event state event_type w =
      let (now, w') = rd.utc_now_iso w in
      rd.publish events_channel (rd.dump_event state event_type now) w'
