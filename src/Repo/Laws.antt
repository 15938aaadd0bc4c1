-- ===== src/Repo/Laws.antt =====
-- On services/task_manager/common/app_common/redis_repo.py: what an update does to the state of one pipeline
-- and to the others.
use mathlib.Core.Path.{subst}
use live_streaming_data_pipe.Base.{
  ◌≡◌, ◌≢◌, refl, sym, ap, ◌∙◌, Text, text_eq_refl, text_eq-eq_false, some, [], ◌∷◌,
}
use live_streaming_data_pipe.Base.Exec.{Result, ok}
use live_streaming_data_pipe.Model.{PipelineState}
use live_streaming_data_pipe.Repo.Keys.{
  pipeline_config_key, pipeline_state_key, pipeline_state_key-injective,
  pipeline_state_key-ne-config_key,
}
use live_streaming_data_pipe.Repo.Redis.{Redis}
use live_streaming_data_pipe.Repo.Store.{
  Update, apply_update, read, get_config, get_state, save_state, update_state, publish_state_event,
}

read_filled :
    {A : Type 0} (load : Text → Result A) (t : Text) (a : A)
    → t ≢ []
    → load t ≡ ok a
    → read load (some t) ≡ ok (some a)
read_filled load [] a h e = absurd (h refl)
read_filled load (c ∷ t) a h e = rw e

module _ (rd : Redis) where
  open rd use {World}

  -- Redis holds the state for the pipeline.
  abbrev pub Holds : Text → PipelineState → World → Type 0
  Holds pid s w = (get_state rd pid w).0 ≡ ok (some s)

  -- What `update_state` stores.
  abbrev pub updated : Update → PipelineState → World → PipelineState
  updated u s w = record (apply_update u s) { updated_at = (rd.utc_now_iso w).0 }

  save_state-Holds :
      (s : PipelineState) (w : World)
      → Holds s.pipeline_id (record s { updated_at = (rd.utc_now_iso w).0 }) (save_state rd s w).1
  unfolding get_state save_state
  save_state-Holds s w =
      let s' : PipelineState = record s { updated_at = (rd.utc_now_iso w).0 } in
      rw
        (
          rd.get-set (pipeline_state_key s.pipeline_id) (pipeline_state_key s.pipeline_id)
              (rd.dump_state s') (rd.utc_now_iso w).1,
          text_eq_refl (pipeline_state_key s.pipeline_id),
        )
        (read_filled rd.load_state (rd.dump_state s') s' (rd.dump_state_filled s')
          (rd.load_state-dump_state s'))

  pub update_state-eq-save_state :
      (pid : Text) (u : Update) (s : PipelineState) (w : World)
      → Holds pid s w
      → update_state rd pid u w ≡ save_state rd (apply_update u s) w
  unfolding update_state
  update_state-eq-save_state pid u s w h = rw h

  -- If Redis holds the state for its pipeline, under the state's own id, then `update_state`
  -- returns that state with the given fields replaced and the time stamped, and Redis holds what
  -- it returned.
  pub update_state_lem :
      (pid : Text) (u : Update) (s : PipelineState) (w : World)
      → s.pipeline_id ≡ pid
      → Holds pid s w
      → ((update_state rd pid u w).0 ≡ ok (updated u s w))
        × Holds pid (updated u s w) (update_state rd pid u w).1
  update_state_lem pid u s w e h = rw (update_state-eq-save_state pid u s w h) (
    unfold save_state in refl,
    subst (λ k. Holds k (updated u s w) (save_state rd (apply_update u s) w).1) e
        (unfold apply_update in save_state-Holds (apply_update u s) w),
  )

  save_state-get :
      (s : PipelineState) (k : Text) (w : World)
      → pipeline_state_key s.pipeline_id ≢ k
      → rd.get k (save_state rd s w).1 ≡ rd.get k w
  unfolding save_state
  save_state-get s k w ne =
      rw
        (
          rd.get-set (pipeline_state_key s.pipeline_id) k
              (rd.dump_state (record s { updated_at = (rd.utc_now_iso w).0 })) (rd.utc_now_iso w).1,
          text_eq-eq_false (pipeline_state_key s.pipeline_id) k ne,
        )
        (rd.get-utc_now_iso k w)

  -- `update_state` of a known pipeline writes no other key than the pipeline's state.
  pub update_state-get :
      (pid : Text) (u : Update) (s : PipelineState) (k : Text) (w : World)
      → s.pipeline_id ≡ pid
      → Holds pid s w
      → pipeline_state_key pid ≢ k
      → rd.get k (update_state rd pid u w).1 ≡ rd.get k w
  update_state-get pid u s k w e h ne = rw (update_state-eq-save_state pid u s w h) (
      save_state-get (apply_update u s) k w
        (λ q. ne (ap pipeline_state_key (sym e) ∙ unfold apply_update in q)))

  pub get_config-update_state :
      (pid q : Text) (u : Update) (s : PipelineState) (w : World)
      → s.pipeline_id ≡ pid
      → Holds pid s w
      → (get_config rd q (update_state rd pid u w).1).0 ≡ (get_config rd q w).0
  get_config-update_state pid q u s w e h =
      unfold get_config in
      rw (
        update_state-get pid u s (pipeline_config_key q) w e h
          (pipeline_state_key-ne-config_key pid q))

  -- If Redis holds the states of two different pipelines, the first under the state's own id, then
  -- `update_state` of the first leaves the other as it is.
  pub update_state-Holds_ne :
      (pid q : Text) (u : Update) (s t : PipelineState) (w : World)
      → s.pipeline_id ≡ pid
      → Holds pid s w
      → pid ≢ q
      → Holds q t w
      → Holds q t (update_state rd pid u w).1
  update_state-Holds_ne pid q u s t w e h ne k =
      unfold get_state in
      rw
        (update_state-get pid u s (pipeline_state_key q) w e h
          (λ c. ne (pipeline_state_key-injective pid q c)))
        (unfold get_state in k)

  pub publish-Holds :
      (pid : Text) (s t : PipelineState) (event : Text) (w : World)
      → Holds pid s w
      → Holds pid s (publish_state_event rd t event w)
  unfolding get_state publish_state_event
  publish-Holds pid s t event w h =
      rw
        (
          rd.get-publish (pipeline_state_key pid) _ _ (rd.utc_now_iso w).1,
          rd.get-utc_now_iso (pipeline_state_key pid) w,
        )
        h
