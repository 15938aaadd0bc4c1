-- ===== src/Api/Records.antt =====
-- `create_pipeline`, `list_pipelines`, `get_status`, `get_logs` and `delete_pipeline`.
use live_streaming_data_pipe.Base.{
  ℕ, zero, Text, codes, Bool, true, false, Option, none, some, List, [], ◌∷◌, ◌++◌, if◌then◌else◌,
}
use live_streaming_data_pipe.Base.Int.{ℤ, pos}
use live_streaming_data_pipe.Base.Dict.{Dict}
use live_streaming_data_pipe.Base.Exec.{
  Exc, ExcKind, value_error, validation_error, Result, ok, err, Exec, pure, ◌>>=◌,
}
use live_streaming_data_pipe.Naming.{Named, name, refused, int, ch_unique_identifier}
use live_streaming_data_pipe.Model.{
  PipelineConfig, PipelineState, PipelineType, normal, live, SourceType, OpcUaOptions,
}
use live_streaming_data_pipe.Repo.Redis.{Redis}
use live_streaming_data_pipe.Repo.Store.{
  get_config, get_state, list_pipeline_ids, next_collection_number,
}
use live_streaming_data_pipe.Repo.Store
use live_streaming_data_pipe.Runtime.{RuntimeAdapter, Provisioning}
use live_streaming_data_pipe.Api.Reply.{
  Reply, created_record, status_record, listing, logs, no_content, http_error, not_here, not_found,
}
use live_streaming_data_pipe.Api.Lifecycle.{stop_pipeline}

-- `PipelineCreateRequest`, as pydantic has checked it
pub record CreateRequest : Type 0 where
  pub pipeline_id : Text
  pub pipeline_type : PipelineType
  pub airflow_dag_id : Option Text
  pub user_id : Option Text
  pub collection_number : Option ℤ
  pub table_name : Option Text
  pub table_schema : Dict Text
  pub source_type : SourceType
  pub topic : Option Text
  pub batch_size : ℕ
  pub flush_interval_seconds : ℕ
  pub source_options : OpcUaOptions

-- `text or default`
unfoldable pub or_text : Option Text → Text → Text
or_text none default = default
or_text (some []) default = default
or_text (some (c ∷ s)) default = c ∷ s

-- a normal pipeline without a DAG
unfoldable pub lacks_dag : PipelineType → Option Text → Bool
lacks_dag live dag = false
lacks_dag normal none = true
lacks_dag normal (some []) = true
lacks_dag normal (some (c ∷ s)) = false

abbrev pub bad_table_name : Exc
bad_table_name = record {
  kind = validation_error;
  name = codes "ValidationError";
  message = codes "1 validation error for PipelineConfig";
}

abbrev pub bad_identifier : Exc
bad_identifier = record {
  kind = value_error;
  name = codes "ValueError";
  message = codes "not an identifier";
}

-- the validator of `table_name`
abbrev pub if_valid {ℓ} : {A : Type ℓ} → Named → A → A → A
if_valid (name n) a b = a
if_valid (refused e) a b = b

module _ (rd : Redis) (rt : RuntimeAdapter rd.World) (pv : Provisioning rd.World) where
  open rd use {World}

  -- `request.collection_number or await repo.next_collection_number(user_id)`
  abbrev pub next_number : Text → Exec World ℤ
  next_number user_id = next_collection_number rd user_id

  unfoldable pub number_of : Option ℤ → Text → Exec World ℤ
  unfolding next_collection_number
  number_of none user_id w = next_number user_id w
  number_of (some (pos zero)) user_id w = next_number user_id w
  number_of (some n) user_id w = (ok n, w)

  -- The `PipelineConfig(…)` of `create_pipeline`; its two times read the clock.
  abbrev pub config_of : CreateRequest → ℤ → Text → Text → PipelineConfig
  config_of request number created updated = record {
    pipeline_id = request.pipeline_id;
    pipeline_type = request.pipeline_type;
    airflow_dag_id = request.airflow_dag_id;
    user_id = or_text request.user_id (codes "0");
    collection_number = number;
    table_name = or_text request.table_name (codes "events");
    table_schema = request.table_schema;
    source_type = request.source_type;
    topic = or_text request.topic (codes "pipeline." ++ (request.pipeline_id ++ codes ".events"));
    batch_size = request.batch_size;
    flush_interval_seconds = request.flush_interval_seconds;
    source_options = request.source_options;
    created_at = created;
    updated_at = updated;
  }

  abbrev pub make_config : CreateRequest → ℤ → Exec World PipelineConfig
  make_config request number w =
      let (created, w') = rd.utc_now_iso w in
      let (updated, w'') = rd.utc_now_iso w' in
      let config = config_of request number created updated in
      (
        if_valid (ch_unique_identifier (codes "0") (int (pos 1)) config.table_name) (ok config)
            (err bad_table_name),
        w'',
      )

  -- the reply, which composes the table's name
  abbrev pub reply_created : PipelineConfig → PipelineState → Named → Exec World Reply
  reply_created config state (name table) w = (ok (created_record config state table), w)
  reply_created config state (refused e) w = (err bad_identifier, w)

  abbrev pub table_reply : PipelineConfig → PipelineState → Exec World Reply
  table_reply config state =
      reply_created config state
        (ch_unique_identifier config.user_id (int config.collection_number) config.table_name)

  -- the `try` around `provision`
  abbrev pub after_provision :
      PipelineConfig → PipelineState → Result (Unit {0}) × World → Result Reply × World
  after_provision config state (ok u, w) = table_reply config state w
  after_provision config state (err e, w) = (
    ok (http_error 502 (codes "provisioning failed: " ++ e.message)),
    Store.delete_pipeline rd config.pipeline_id w,
  )

  abbrev pub provision_live : PipelineType → PipelineConfig → PipelineState → Exec World Reply
  provision_live normal config state w = table_reply config state w
  provision_live live config state w = after_provision config state (pv.provision config w)

  -- `except ValueError`: pydantic's error is one too
  abbrev pub is_value_error : ExcKind → Bool
  is_value_error value_error = true
  is_value_error validation_error = true
  is_value_error _ = false

  abbrev pub after_create : PipelineConfig → Result PipelineState × World → Result Reply × World
  after_create config (ok state, w) = provision_live config.pipeline_type config state w
  after_create config (err e, w) =
      (if is_value_error e.kind then ok (http_error 409 e.message) else err e, w)

  abbrev pub create_new : CreateRequest → Exec World Reply
  create_new request = do
    number ← number_of request.collection_number (or_text request.user_id (codes "0"))
    config ← make_config request number
    λ w. after_create config (Store.create_pipeline rd config w)

  abbrev pub unless_known : CreateRequest → Option PipelineConfig → Exec World Reply
  unless_known request none = create_new request
  unless_known request (some old) =
      pure (http_error 409 (codes "Pipeline already exists: " ++ request.pipeline_id))

  unfoldable pub create_pipeline : CreateRequest → Exec World Reply
  unfolding lacks_dag number_of or_text get_config ch_unique_identifier Store.create_pipeline
      Store.delete_pipeline ◌>>=◌
  create_pipeline request =
      if lacks_dag request.pipeline_type request.airflow_dag_id
      then pure (http_error 400 (codes "airflow_dag_id required for normal pipelines"))
      else get_config rd request.pipeline_id >>= unless_known request

  abbrev pub add_pair :
      Option PipelineConfig
      → Option PipelineState
      → List (PipelineConfig × PipelineState)
      → List (PipelineConfig × PipelineState)
  add_pair (some c) (some s) rest = (c, s) ∷ rest
  add_pair _ _ rest = rest

  unfoldable pub list_all : List Text → Exec World (List (PipelineConfig × PipelineState))
  unfolding get_config get_state ◌>>=◌
  list_all [] = pure []
  list_all (pid ∷ pids) = do
    config ← get_config rd pid
    state ← get_state rd pid
    rest ← list_all pids
    pure (add_pair config state rest)

  unfoldable pub list_pipelines : Exec World Reply
  unfolding list_all list_pipeline_ids ◌>>=◌
  list_pipelines w = (list_all (list_pipeline_ids rd w) >>= λ all. pure (listing all)) w

  abbrev pub status_of : Text → Option PipelineConfig → Exec World Reply
  status_of pid none = pure (http_error 404 not_found)
  status_of pid (some config) = elim config.pipeline_type [
    | normal ↦ pure (http_error 400 not_here)
    | live ↦ get_state rd pid >>= λ state. pure (status_record config state)
  ]

  unfoldable pub get_status : Text → Exec World Reply
  unfolding get_config get_state ◌>>=◌
  get_status pid = get_config rd pid >>= status_of pid

  -- `role` and `tail` as FastAPI has checked them: `is_consumer` is `role == "consumer"`.
  abbrev pub role_name : Bool → Text
  role_name true = codes "consumer"
  role_name false = codes "producer"

  abbrev pub container_of : Bool → PipelineState → Option Text
  container_of true state = state.consumer_container
  container_of false state = state.producer_container

  abbrev pub logs_of : Text → Bool → ℕ → Option Text → Exec World Reply
  logs_of pid is_consumer tail none =
      pure
        (http_error 404 (codes "No " ++ (role_name is_consumer ++ codes " container registered")))
  logs_of pid is_consumer tail (some []) =
      pure
        (http_error 404 (codes "No " ++ (role_name is_consumer ++ codes " container registered")))
  logs_of pid is_consumer tail (some (c ∷ container)) =
      rt.get_logs (c ∷ container) tail >>= λ text. pure (logs pid (c ∷ container) text)

  abbrev pub logs_for : Text → Bool → ℕ → Option PipelineState → Exec World Reply
  logs_for pid is_consumer tail none = pure (http_error 404 not_found)
  logs_for pid is_consumer tail (some state) =
      logs_of pid is_consumer tail (container_of is_consumer state)

  unfoldable pub get_logs : Text → Bool → ℕ → Exec World Reply
  unfolding get_state ◌>>=◌
  get_logs pid is_consumer tail = get_state rd pid >>= logs_for pid is_consumer tail

  abbrev pub drop_record : Text → Exec World Reply
  drop_record pid w = (ok no_content, Store.delete_pipeline rd pid w)

  abbrev pub if_drained : Text → PipelineConfig → Bool → Exec World Reply
  if_drained pid config false = pure (
      http_error 409 (
        codes
          "pipeline stopped, but the consumer pool has not written everything in its topic yet — retry the delete"))
  if_drained pid config true = pv.delete_topic config >>= λ u. drop_record pid

  -- An `HTTPException` that `stop_pipeline` raises leaves `delete_pipeline` too.
  abbrev pub drain : Text → PipelineConfig → Reply → Exec World Reply
  drain pid config (http_error code text) = pure (http_error code text)
  drain pid config reply = pv.wait_for_drain config >>= if_drained pid config

  abbrev pub delete_known : Text → Option PipelineConfig → Exec World Reply
  delete_known pid none = pure (http_error 404 not_found)
  delete_known pid (some config) = elim config.pipeline_type [
    | normal ↦ drop_record pid
    | live ↦ stop_pipeline rd rt pid >>= drain pid config
  ]

  unfoldable pub delete_pipeline : Text → Exec World Reply
  unfolding get_config stop_pipeline Store.delete_pipeline ◌>>=◌
  delete_pipeline pid = get_config rd pid >>= delete_known pid
