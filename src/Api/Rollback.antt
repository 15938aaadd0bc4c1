-- ===== src/Api/Rollback.antt =====
-- On `create_pipeline` of services/task_manager/task_manager/app/main.py: what a failed provisioning
-- leaves in Redis.
use live_streaming_data_pipe.Base.{
  ℕ, ◌≡◌, refl, ap, Text, text_eq, text_eq_refl, Bool, true, false, Option, none, some, arith,
  if◌then◌else◌, codes,
}
use live_streaming_data_pipe.Base.Int.{pos}
use live_streaming_data_pipe.Base.Exec.{Exc, Result, ok, err, Exec, continue, ◌>>=◌}
use live_streaming_data_pipe.Naming.{Named, name, refused, int, ch_unique_identifier}
use live_streaming_data_pipe.Model.{PipelineConfig, PipelineState, PipelineType, normal, live}
use live_streaming_data_pipe.Repo.Keys.{pipeline_config_key, pipeline_state_key}
use live_streaming_data_pipe.Repo.Redis.{Redis}
use live_streaming_data_pipe.Repo.Store.{read, get_config, get_state}
use live_streaming_data_pipe.Repo.Store
use live_streaming_data_pipe.Runtime.{RuntimeAdapter, Provisioning}
use live_streaming_data_pipe.Api.Reply.{Reply, http_error}
use live_streaming_data_pipe.Api.Records.{
  CreateRequest, is_value_error, if_valid, lacks_dag, or_text, number_of, config_of, make_config,
  reply_created, after_provision, provision_live, after_create, create_new, unless_known,
  create_pipeline, bad_table_name,
}

abbrev code_of : Result Reply → ℕ
code_of (ok (http_error n t)) = n
code_of _ = 0

module _ (rd : Redis) (rt : RuntimeAdapter rd.World) (pv : Provisioning rd.World) where
  open rd use {World}

  -- Redis holds neither a configuration nor a state for the pipeline.
  pub record Unknown (pid : Text) (w : World) : Type 0 where
    pub no_config : (get_config rd pid w).0 ≡ ok none
    pub no_state : (get_state rd pid w).0 ≡ ok none

  -- An answer of 502 leaves the pipeline unknown.
  abbrev Rolled : Text → Result Reply × World → Type 0
  Rolled pid x = (t : Text) → x.0 ≡ ok (http_error 502 t) → Unknown pid x.1

  gone_twice :
      (k j : Text) (w : World)
      → (rd.get j (rd.delete k (rd.delete j w)) ≡ none)
        × (rd.get k (rd.delete k (rd.delete j w)) ≡ none)
  gone_twice k j w = (
    rw (rd.get-delete k j (rd.delete j w), rd.get-delete j j w, text_eq_refl j)
        (both (text_eq k j)),
    rw (rd.get-delete k k (rd.delete j w), text_eq_refl k) refl,
  )
    where
      both : (b : Bool) → ◌≡◌ {A = Option Text} (if b then none else none) none
      both true = refl
      both false = refl

  pub delete_pipeline-Unknown :
      (pid : Text) (w : World) → Unknown pid (Store.delete_pipeline rd pid w)
  unfolding Store.delete_pipeline get_config get_state
  delete_pipeline-Unknown pid w =
      let (a, b) = gone_twice (pipeline_state_key pid) (pipeline_config_key pid) w in
      record { no_config = rw a refl; no_state = rw b refl }

  reply_created-Rolled :
      (pid : Text) (config : PipelineConfig) (state : PipelineState) (n : Named) (w : World)
      → Rolled pid (reply_created rd rt pv config state n w)
  reply_created-Rolled pid config state (name table) w t h = cc
  reply_created-Rolled pid config state (refused e) w t h = cc

  after_provision-Rolled :
      (config : PipelineConfig) (state : PipelineState) (r : Result (Unit {0})) (w : World)
      → Rolled config.pipeline_id (after_provision rd rt pv config state (r, w))
  after_provision-Rolled config state (ok u) w =
      reply_created-Rolled config.pipeline_id config state
        (ch_unique_identifier config.user_id (int config.collection_number) config.table_name) w
  after_provision-Rolled config state (err e) w =
      λ t h. delete_pipeline-Unknown config.pipeline_id w

  provision_live-Rolled :
      (p : PipelineType) (config : PipelineConfig) (state : PipelineState) (w : World)
      → Rolled config.pipeline_id (provision_live rd rt pv p config state w)
  provision_live-Rolled normal config state w =
      reply_created-Rolled config.pipeline_id config state
        (ch_unique_identifier config.user_id (int config.collection_number) config.table_name) w
  provision_live-Rolled live config state w =
      after_provision-Rolled config state (pv.provision config w).0 (pv.provision config w).1

  conflict_or_raise :
      (b : Bool) (e : Exc) (pid : Text) (w : World)
      → Rolled pid (if b then ok (http_error 409 e.message) else err e, w)
  conflict_or_raise true e pid w t h = absurd (let q : 409 ≡ 502 = ap code_of h in omega arith)
  conflict_or_raise false e pid w t h = absurd (let q : 0 ≡ 502 = ap code_of h in omega arith)

  after_create-Rolled :
      (config : PipelineConfig) (r : Result PipelineState) (w : World)
      → Rolled config.pipeline_id (after_create rd rt pv config (r, w))
  after_create-Rolled config (ok state) w =
      provision_live-Rolled config.pipeline_type config state w
  after_create-Rolled config (err e) w =
      conflict_or_raise (is_value_error rd rt pv e.kind) e config.pipeline_id w

  -- A call that raises, and one that goes on to such an answer.
  continue-Rolled :
      {A : Type 0} (pid : Text) (r : Result A) (f : A → Exec World Reply) (w : World)
      → ((a : A) (v : World) → Rolled pid (f a v))
      → Rolled pid (continue r f w)
  continue-Rolled pid (ok a) f w h = h a w
  continue-Rolled pid (err e) f w h = λ t q. absurd (let z : 0 ≡ 502 = ap code_of q in omega arith)

  if_valid-Rolled :
      (config : PipelineConfig) (n : Named) (w : World)
      → Rolled config.pipeline_id (
          continue
            (if_valid n (ok config) (err bad_table_name))
            (λ c v. after_create rd rt pv c (Store.create_pipeline rd c v))
            w)
  if_valid-Rolled config (name n) w =
      after_create-Rolled config (Store.create_pipeline rd config w).0
        (Store.create_pipeline rd config w).1
  if_valid-Rolled config (refused e) w =
      λ t q. absurd (let z : 0 ≡ 502 = ap code_of q in omega arith)

  create_new-Rolled :
      (request : CreateRequest) (w : World)
      → Rolled request.pipeline_id (create_new rd rt pv request w)
  unfolding ◌>>=◌
  create_new-Rolled request w =
      let user = or_text request.user_id (codes "0") in
      continue-Rolled request.pipeline_id (number_of rd rt pv request.collection_number user w).0
        (λ number v.
          let (r, v') = make_config rd rt pv request number v in
          continue r (λ c u. after_create rd rt pv c (Store.create_pipeline rd c u)) v')
        (number_of rd rt pv request.collection_number user w).1
        (λ number v.
          let (created, v') = rd.utc_now_iso v in
          let (updated, v'') = rd.utc_now_iso v' in
          if_valid-Rolled (config_of rd rt pv request number created updated)
            (ch_unique_identifier (codes "0") (int (pos 1))
              (or_text request.table_name (codes "events")))
            v'')

  unless_known-Rolled :
      (request : CreateRequest) (old : Option PipelineConfig) (w : World)
      → Rolled request.pipeline_id (unless_known rd rt pv request old w)
  unless_known-Rolled request none w = create_new-Rolled request w
  unless_known-Rolled request (some old) w =
      λ t q. absurd (let z : 409 ≡ 502 = ap code_of q in omega arith)

  unless_lacking :
      (b : Bool) (request : CreateRequest) (w : World)
      → Rolled request.pipeline_id (
          (if b
              then (λ v.
                  (ok (http_error 400 (codes "airflow_dag_id required for normal pipelines")), v))
              else get_config rd request.pipeline_id >>= unless_known rd rt pv request)
            w)
  unfolding ◌>>=◌
  unless_lacking true request w = λ t q. absurd (let z : 400 ≡ 502 = ap code_of q in omega arith)
  unless_lacking false request w =
      continue-Rolled request.pipeline_id (get_config rd request.pipeline_id w).0
        (unless_known rd rt pv request) (get_config rd request.pipeline_id w).1
        (unless_known-Rolled request)

  -- If `create_pipeline` answers 502, whatever provisioning did, then Redis holds neither a configuration
  -- nor a state for the pipeline.
  pub create_pipeline-Unknown :
      (request : CreateRequest) (w : World) (t : Text)
      → (create_pipeline rd rt pv request w).0 ≡ ok (http_error 502 t)
      → Unknown request.pipeline_id (create_pipeline rd rt pv request w).1
  unfolding create_pipeline
  create_pipeline-Unknown request w t =
      unless_lacking (lacks_dag request.pipeline_type request.airflow_dag_id) request w t
