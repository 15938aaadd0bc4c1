-- ===== src/Watcher/Handle.antt =====
-- `_handle`, `_scan_existing` and `on_created` of
-- services/task_manager/task_manager/app/folder_watcher.py.
use live_streaming_data_pipe.Base.{
  ℕ, Text, text_eq, codes, Bool, true, false, Option, none, some, List, [], ◌∷◌, ◌++◌,
  if◌then◌else◌,
}
use live_streaming_data_pipe.Base.Int.{ℤ}
use live_streaming_data_pipe.Base.Exec.{
  Exc, ExcKind, value_error, validation_error, json_decode_error, Result, ok, err, Exec, raise,
  ◌>>=◌, ◌>>◌,
}
use live_streaming_data_pipe.Json.{Value, Fields, Loaded, parsed, decode_error, failed, Py}
use live_streaming_data_pipe.Model.{
  PipelineConfig, PipelineState, live, SourceType, OpcUaOptions, default_table_schema,
}
use live_streaming_data_pipe.Model.{PipelineStatus}
use live_streaming_data_pipe.Repo.Redis.{Redis}
use live_streaming_data_pipe.Repo.Store.{
  get_config, update_state, next_collection_number, create_pipeline, sorted,
}
use live_streaming_data_pipe.Runtime.{Provisioning}
use live_streaming_data_pipe.Api.Reply.{set_status, with_error}
use live_streaming_data_pipe.Api.Records.{or_text}
use live_streaming_data_pipe.Watcher.Files.{
  FilePath, Files, below, is_os_error, stem_and_suffix, move_file,
}

-- `PipelineDefinition`
pub record Definition : Type 0 where
  pub pipeline_id : Text
  pub source_type : Text
  pub topic : Option Text
  pub batch_size : ℕ
  pub flush_interval_seconds : ℕ
  pub source_options : Fields

-- What the watcher takes from pydantic: `PipelineDefinition.model_validate`, and what the constructor of
-- `PipelineConfig` does with a source type and options that are not typed yet.
pub record Validation : Type 0 where
  pub model_validate : Value → Result Definition
  pub typed_options : Text → Fields → Result (SourceType × OpcUaOptions)

abbrev pub processed : Text → Text
processed folder = below folder (codes "processed")

abbrev pub rejected : Text → Text
rejected folder = below folder (codes "failed")

-- `except ValueError`, for the exceptions of the repository
abbrev pub is_value_error : ExcKind → Bool
is_value_error value_error = true
is_value_error validation_error = true
is_value_error json_decode_error = true
is_value_error _ = false

abbrev pub is_validation_error : ExcKind → Bool
is_validation_error validation_error = true
is_validation_error _ = false

module _ (py : Py) (vd : Validation) (rd : Redis) (files : Files rd.World)
    (pv : Provisioning rd.World) where
  open rd use {World}

  abbrev pub to_processed : FilePath → Exec World (Unit {0})
  to_processed fp = move_file files fp (processed fp.parent)

  abbrev pub to_failed : FilePath → Exec World (Unit {0})
  to_failed fp = move_file files fp (rejected fp.parent)

  abbrev pub provisioning_failed : Text → FilePath → Exc → Exec World (Unit {0})
  provisioning_failed pid fp e =
      update_state rd pid
        (with_error (codes "provisioning failed: " ++ e.message) (set_status PipelineStatus.failed))
      >>= λ state. to_failed fp

  -- the handler of the last `try`
  abbrev pub after_provision :
      Text → FilePath → Result (Unit {0}) × World → Result (Unit {0}) × World
  after_provision pid fp (ok u, w) = (ok u, w)
  after_provision pid fp (err e, w) = provisioning_failed pid fp e w

  -- the last `try`: the move stands inside it
  abbrev pub provision_and_move : PipelineConfig → FilePath → Exec World (Unit {0})
  provision_and_move config fp w =
      after_provision config.pipeline_id fp ((pv.provision config >> to_processed fp) w)

  abbrev pub after_create :
      PipelineConfig → FilePath → Result PipelineState × World → Result (Unit {0}) × World
  after_create config fp (ok state, w) = provision_and_move config fp w
  after_create config fp (err e, w) =
      if is_value_error e.kind then to_processed fp w else to_failed fp w

  -- the `PipelineConfig(…)` of `_handle`
  abbrev pub config_of : Definition → ℤ → SourceType × OpcUaOptions → Text → Text → PipelineConfig
  config_of defn number (source_type, options) created updated = record {
    pipeline_id = defn.pipeline_id;
    pipeline_type = live;
    airflow_dag_id = none;
    user_id = codes "0";
    collection_number = number;
    table_name = codes "events";
    table_schema = default_table_schema;
    source_type = source_type;
    topic = or_text defn.topic (codes "pipeline." ++ (defn.pipeline_id ++ codes ".events"));
    batch_size = defn.batch_size;
    flush_interval_seconds = defn.flush_interval_seconds;
    source_options = options;
    created_at = created;
    updated_at = updated;
  }

  abbrev pub with_options :
      Definition → FilePath → ℤ → Result (SourceType × OpcUaOptions) → Exec World (Unit {0})
  with_options defn fp number (ok typed) w =
      let (created, w') = rd.utc_now_iso w in
      let (updated, w'') = rd.utc_now_iso w' in
      let config = config_of defn number typed created updated in
      after_create config fp (create_pipeline rd config w'')
  with_options defn fp number (err e) w = (err e, w)

  abbrev pub unless_registered :
      Definition → FilePath → Option PipelineConfig → Exec World (Unit {0})
  unless_registered defn fp (some config) = to_processed fp
  unless_registered defn fp none = next_collection_number rd (codes "0") >>= λ number.
      with_options defn fp number (vd.typed_options defn.source_type defn.source_options)

  abbrev pub after_validate : FilePath → Result Definition → Exec World (Unit {0})
  after_validate fp (ok defn) = get_config rd defn.pipeline_id >>= unless_registered defn fp
  after_validate fp (err e) = if is_validation_error e.kind then to_failed fp else raise e

  abbrev pub after_loads : FilePath → Loaded → Exec World (Unit {0})
  after_loads fp (parsed raw) = after_validate fp (vd.model_validate raw)
  after_loads fp decode_error = to_failed fp
  after_loads fp (failed e) = if is_os_error e.kind then to_failed fp else raise e

  abbrev pub after_read : FilePath → Result Text × World → Result (Unit {0}) × World
  after_read fp (ok text, w) = after_loads fp (py.loads text) w
  after_read fp (err e, w) = if is_os_error e.kind then to_failed fp w else (err e, w)

  unfoldable pub handle : FilePath → Exec World (Unit {0})
  unfolding move_file get_config next_collection_number create_pipeline update_state or_text ◌>>=◌
  handle fp w = if files.exists fp w then after_read fp (files.read_text fp w) else (ok tt, w)

  -- The files of the generator in `_scan_existing`, before `sorted`.
  unfoldable pub pending : Text → List Text → World → List Text
  unfolding stem_and_suffix
  pending folder [] w = []
  pending folder (name ∷ names) w =
      let rest = pending folder names w in
      if files.is_file (record { parent = folder; name = name }) w
      then (if text_eq (stem_and_suffix name).1 (codes ".json") then name ∷ rest else rest)
      else rest

  -- What a file raises is logged, and the scan goes on.
  unfoldable pub handle_all : Text → List Text → World → World
  unfolding handle
  handle_all folder [] w = w
  handle_all folder (name ∷ names) w =
      handle_all folder names (handle (record { parent = folder; name = name }) w).1

  unfoldable pub scan_existing : Text → World → World
  unfolding handle_all pending sorted
  scan_existing folder w = handle_all folder (sorted (pending folder (files.entries folder w) w)) w
