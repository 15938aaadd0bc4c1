-- ===== src/Watcher/Filed.antt =====
-- On `_handle` of services/task_manager/task_manager/app/folder_watcher.py: where the file goes, and
-- what Redis holds then.
use live_streaming_data_pipe.Base.{
  ◌≡◌, refl, Text, codes, ◌++◌, Bool, true, false, Bool-cases, inl, inr, Option, none, some,
  if◌then◌else◌,
}
use live_streaming_data_pipe.Base.Int.{ℤ}
use live_streaming_data_pipe.Base.Exec.{Exc, Result, ok, err, continue, ◌>>=◌}
use live_streaming_data_pipe.Json.{Value, Loaded, parsed, decode_error, failed, Py}
use live_streaming_data_pipe.Model.{PipelineStatus}
use live_streaming_data_pipe.Model.{PipelineConfig, PipelineState, SourceType, OpcUaOptions}
use live_streaming_data_pipe.Repo.Keys.{pipeline_config_key}
use live_streaming_data_pipe.Repo.Redis.{Redis}
use live_streaming_data_pipe.Repo.Store.{
  Update, get_config, update_state, next_collection_number, create_pipeline,
}
use live_streaming_data_pipe.Api.Reply.{set_status, with_error}
use live_streaming_data_pipe.Runtime.{Provisioning}
use live_streaming_data_pipe.Watcher.Files.{FilePath, Files, is_os_error}
use live_streaming_data_pipe.Watcher.Keyed.{Keyed, create_pipeline-Keyed, get_config-Keyed}
use live_streaming_data_pipe.Watcher.Handle.{
  Definition, Validation, is_value_error, is_validation_error, to_processed, to_failed,
  provisioning_failed, after_provision, provision_and_move, after_create, config_of, with_options,
  unless_registered, after_validate, after_loads, after_read, handle,
}
use live_streaming_data_pipe.Watcher.Ends.{
  IsApart, Defines, Cause, from_read, from_loads, from_validate, from_options, from_lookup,
  from_number, from_state, Filed, gone, registered, refused, escaped,
}

module _ (py : Py) (vd : Validation) (rd : Redis) (files : Files rd.World)
    (pv : Provisioning rd.World) where
  open rd use {World}

  module _ (fp : FilePath) (start : World) where
    -- The file defines the pipeline, and Redis has its configuration.
    abbrev Ready : Text → World → Type 0
    Ready pid w = Defines py vd rd files pv fp start pid × Keyed rd pid w

    updated-Filed :
        (pid : Text) (u : Update) (v : World) (r : Result PipelineState) (w : World)
        → (update_state rd pid u v).0 ≡ r
        → Filed py vd rd files pv fp start (continue r (λ s. to_failed py vd rd files pv fp) w)
    updated-Filed pid u v (ok s) w q = refused w refl
    updated-Filed pid u v (err e) w q = escaped e w (from_state pid u v q) refl

    provisioning_failed-Filed :
        (pid : Text) (e : Exc) (w : World)
        → Filed py vd rd files pv fp start (provisioning_failed py vd rd files pv pid fp e w)
    unfolding ◌>>=◌
    provisioning_failed-Filed pid e w =
        let u : Update =
          with_error (codes "provisioning failed: " ++ e.message)
            (set_status PipelineStatus.failed) in
        updated-Filed pid u w (update_state rd pid u w).0 (update_state rd pid u w).1 refl

    moved-Filed :
        (pid : Text) (v : World) (x : Result (Unit {0}) × World)
        → Ready pid v
        → x ≡ to_processed py vd rd files pv fp v
        → Filed py vd rd files pv fp start (after_provision py vd rd files pv pid fp x)
    moved-Filed pid v (ok u, w) k e = registered pid v k.0 k.1 e
    moved-Filed pid v (err x, w) k e = provisioning_failed-Filed pid x w

    provisioned-Filed :
        (c : PipelineConfig) (x : Result (Unit {0}) × World)
        → Ready c.pipeline_id x.1
        → Filed py vd rd files pv fp start (
            after_provision py vd rd files pv c.pipeline_id fp
              (continue x.0 (λ u. to_processed py vd rd files pv fp) x.1))
    provisioned-Filed c (ok u, w) k =
        moved-Filed c.pipeline_id w (to_processed py vd rd files pv fp w) k refl
    provisioned-Filed c (err e, w) k = provisioning_failed-Filed c.pipeline_id e w

    module _ (apart : IsApart rd pv) where
      provision_and_move-Filed :
          (c : PipelineConfig) (w : World)
          → Ready c.pipeline_id w
          → Filed py vd rd files pv fp start (provision_and_move py vd rd files pv c fp w)
      unfolding ◌>>=◌
      provision_and_move-Filed c w k =
          provisioned-Filed c (pv.provision c w)
            (k.0, rw (apart.at_provision c (pipeline_config_key c.pipeline_id) w) k.1)

      refused_or_known :
          (b : Bool) (pid : Text) (w : World)
          → Ready pid w
          → Filed py vd rd files pv fp start
              (if b then to_processed py vd rd files pv fp w else to_failed py vd rd files pv fp w)
      refused_or_known true pid w k = registered pid w k.0 k.1 refl
      refused_or_known false pid w k = refused w refl

      after_create-Filed :
          (c : PipelineConfig) (x : Result PipelineState × World)
          → Ready c.pipeline_id x.1
          → Filed py vd rd files pv fp start (after_create py vd rd files pv c fp x)
      after_create-Filed c (ok s, w) k = provision_and_move-Filed c w k
      after_create-Filed c (err e, w) k = refused_or_known (is_value_error e.kind) c.pipeline_id w k

      with_options-Filed :
          (defn : Definition) (number : ℤ) (r : Result (SourceType × OpcUaOptions)) (w : World)
          → Defines py vd rd files pv fp start defn.pipeline_id
          → vd.typed_options defn.source_type defn.source_options ≡ r
          → Filed py vd rd files pv fp start (with_options py vd rd files pv defn fp number r w)
      with_options-Filed defn number (ok (source_type, options)) w d q =
          let (created, w') = rd.utc_now_iso w in
          let (updated, w'') = rd.utc_now_iso w' in
          let c = config_of py vd rd files pv defn number (source_type, options) created updated in
          after_create-Filed c (create_pipeline rd c w'') (d, create_pipeline-Keyed rd c w'')
      with_options-Filed defn number (err e) w d q = escaped e w (from_options defn d q) refl

      numbered-Filed :
          (defn : Definition) (v : World) (r : Result ℤ) (w : World)
          → Defines py vd rd files pv fp start defn.pipeline_id
          → (next_collection_number rd (codes "0") v).0 ≡ r
          → Filed py vd rd files pv fp start (
              continue r
                (λ number.
                  with_options py vd rd files pv defn fp number
                    (vd.typed_options defn.source_type defn.source_options))
                w)
      numbered-Filed defn v (ok number) w d q =
          with_options-Filed defn number (vd.typed_options defn.source_type defn.source_options) w d
            refl
      numbered-Filed defn v (err e) w d q = escaped e w (from_number v q) refl

      looked_up-Filed :
          (defn : Definition) (v : World) (r : Result (Option PipelineConfig)) (w : World)
          → Defines py vd rd files pv fp start defn.pipeline_id
          → (get_config rd defn.pipeline_id v).0 ≡ r
          → ((c : PipelineConfig) → r ≡ ok (some c) → Keyed rd defn.pipeline_id w)
          → Filed py vd rd files pv fp start
              (continue r (unless_registered py vd rd files pv defn fp) w)
      unfolding ◌>>=◌
      looked_up-Filed defn v (ok (some c)) w d q k = registered defn.pipeline_id w d (k c refl) refl
      looked_up-Filed defn v (ok none) w d q k =
          numbered-Filed defn w (next_collection_number rd (codes "0") w).0
            (next_collection_number rd (codes "0") w).1 d refl
      looked_up-Filed defn v (err e) w d q k = escaped e w (from_lookup defn.pipeline_id v q) refl

      -- A handler that takes the exceptions of one kind, and lets the others out.
      failed_or_raised :
          (b : Bool) (e : Exc) (w : World)
          → (b ≡ false → Cause py vd rd files pv fp start e)
          → Filed py vd rd files pv fp start
              (if b then to_failed py vd rd files pv fp w else (err e, w))
      failed_or_raised true e w cause = refused w refl
      failed_or_raised false e w cause = escaped e w (cause refl) refl

      failed_or_raising :
          (b : Bool) (e : Exc) (w : World)
          → (b ≡ false → Cause py vd rd files pv fp start e)
          → Filed py vd rd files pv fp start
              ((if b then to_failed py vd rd files pv fp else λ v. (err e, v)) w)
      failed_or_raising true e w cause = refused w refl
      failed_or_raising false e w cause = escaped e w (cause refl) refl

      after_validate-Filed :
          (text : Text) (raw : Value) (r : Result Definition) (w : World)
          → (files.read_text fp start).0 ≡ ok text
          → py.loads text ≡ parsed raw
          → vd.model_validate raw ≡ r
          → Filed py vd rd files pv fp start (after_validate py vd rd files pv fp r w)
      unfolding get_config ◌>>=◌
      after_validate-Filed text raw (ok defn) w p q v =
          looked_up-Filed defn w (get_config rd defn.pipeline_id w).0 w
            (record {
              text = text;
              raw = raw;
              defn = defn;
              was_read = p;
              was_loaded = q;
              was_valid = v;
              own_id = refl;
            })
            refl (λ c q. get_config-Keyed rd defn.pipeline_id w c q)
      after_validate-Filed text raw (err e) w p q v =
          failed_or_raising (is_validation_error e.kind) e w (from_validate text raw p q v)

      after_loads-Filed :
          (text : Text) (l : Loaded) (w : World)
          → (files.read_text fp start).0 ≡ ok text
          → py.loads text ≡ l
          → Filed py vd rd files pv fp start (after_loads py vd rd files pv fp l w)
      after_loads-Filed text (parsed raw) w p q =
          after_validate-Filed text raw (vd.model_validate raw) w p q refl
      after_loads-Filed text decode_error w p q = refused w refl
      after_loads-Filed text (failed e) w p q =
          failed_or_raising (is_os_error e.kind) e w (from_loads text p q)

      after_read-Filed :
          (r : Result Text) (w : World)
          → (files.read_text fp start).0 ≡ r
          → Filed py vd rd files pv fp start (after_read py vd rd files pv fp (r, w))
      after_read-Filed (ok text) w p = after_loads-Filed text (py.loads text) w p refl
      after_read-Filed (err e) w p = failed_or_raised (is_os_error e.kind) e w (from_read p)

      -- If provisioning writes nothing to Redis, then `_handle` ends in one of four ways: the file does not
      -- exist, and nothing is done; the call ends with a move of the file to processed/, the file held a
      -- valid definition, and Redis holds a configuration for its pipeline; it ends with a move to
      -- failed/; or an exception leaves it, which came from reading the file (no `OSError`), decoding it
      -- (neither `JSONDecodeError` nor `OSError`), validating it (no `ValidationError`), the check of
      -- the source type's options, or `get_config`, `next_collection_number` or `update_state`.
      pub handle-Filed : Filed py vd rd files pv fp start (handle py vd rd files pv fp start)
      unfolding handle
      handle-Filed = elim (Bool-cases (files.exists fp start)) [
        | inl there ↦
            rw there
              (after_read-Filed (files.read_text fp start).0 (files.read_text fp start).1 refl)
        | inr away ↦ rw away (gone away refl)
      ]
