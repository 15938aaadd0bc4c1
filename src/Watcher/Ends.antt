-- ===== src/Watcher/Ends.antt =====
-- On `_handle` of services/task_manager/task_manager/app/folder_watcher.py: the ends that a call
-- may have.
use live_streaming_data_pipe.Base.{◌≡◌, Text, codes, false}
use live_streaming_data_pipe.Base.Exec.{Exc, Result, ok, err}
use live_streaming_data_pipe.Json.{Value, parsed, failed, Py}
use live_streaming_data_pipe.Model.{PipelineConfig}
use live_streaming_data_pipe.Repo.Redis.{Redis}
use live_streaming_data_pipe.Repo.Store.{Update, get_config, update_state, next_collection_number}
use live_streaming_data_pipe.Runtime.{Provisioning}
use live_streaming_data_pipe.Watcher.Files.{FilePath, Files, is_os_error}
use live_streaming_data_pipe.Watcher.Keyed.{Keyed}
use live_streaming_data_pipe.Watcher.Handle.{
  Definition, Validation, is_validation_error, to_processed, to_failed,
}

-- Provisioning writes nothing to Redis, and nobody else does while it works.
pub record IsApart (rd : Redis) (pv : Provisioning rd.World) : Type 0 where
  pub at_provision :
      (c : PipelineConfig) (k : Text) (w : rd.World) → rd.get k (pv.provision c w).1 ≡ rd.get k w

module _ (py : Py) (vd : Validation) (rd : Redis) (files : Files rd.World)
    (pv : Provisioning rd.World) where
  open rd use {World}

  -- The file, read in the world `w`, holds a valid definition of the pipeline.
  pub record Defines (fp : FilePath) (w : World) (pid : Text) : Type 0 where
    pub text : Text
    pub raw : Value
    pub defn : Definition
    pub was_read : (files.read_text fp w).0 ≡ ok text
    pub was_loaded : py.loads text ≡ parsed raw
    pub was_valid : vd.model_validate raw ≡ ok defn
    pub own_id : defn.pipeline_id ≡ pid

  -- What an exception that leaves `_handle` in the world `w` comes from: reading the file (no `OSError`),
  -- decoding it (neither `JSONDecodeError` nor `OSError`), validating it (no `ValidationError`), the source
  -- type's check of the options, or a call of the repository.
  pub data Cause (fp : FilePath) (w : World) (e : Exc) : Type 0 where
    from_read : (files.read_text fp w).0 ≡ err e → is_os_error e.kind ≡ false → Cause fp w e
    from_loads :
        (text : Text)
        → (files.read_text fp w).0 ≡ ok text
        → py.loads text ≡ failed e
        → is_os_error e.kind ≡ false
        → Cause fp w e
    from_validate :
        (text : Text) (raw : Value)
        → (files.read_text fp w).0 ≡ ok text
        → py.loads text ≡ parsed raw
        → vd.model_validate raw ≡ err e
        → is_validation_error e.kind ≡ false
        → Cause fp w e
    from_options :
        (defn : Definition)
        → Defines fp w defn.pipeline_id
        → vd.typed_options defn.source_type defn.source_options ≡ err e
        → Cause fp w e
    from_lookup : (pid : Text) (v : World) → (get_config rd pid v).0 ≡ err e → Cause fp w e
    from_number : (v : World) → (next_collection_number rd (codes "0") v).0 ≡ err e → Cause fp w e
    from_state :
        (pid : Text) (u : Update) (v : World) → (update_state rd pid u v).0 ≡ err e → Cause fp w e

  -- The four ends of `_handle` in the world `w`. `registered`: the file is moved to processed/ in a world
  -- where Redis has a configuration of the pipeline that the file defines. `refused`: it is moved to
  -- failed/. `escaped`: an exception with such a cause leaves the call.
  pub data Filed (fp : FilePath) (w : World) (x : Result (Unit {0}) × World) : Type 0 where
    gone : files.exists fp w ≡ false → x ≡ (ok tt, w) → Filed fp w x
    registered :
        (pid : Text) (v : World)
        → Defines fp w pid
        → Keyed rd pid v
        → x ≡ to_processed py vd rd files pv fp v
        → Filed fp w x
    refused : (v : World) → x ≡ to_failed py vd rd files pv fp v → Filed fp w x
    escaped : (e : Exc) (v : World) → Cause fp w e → x ≡ (err e, v) → Filed fp w x
