-- ===== src/Api/Deleted.antt =====
-- On `delete_pipeline` of services/task_manager/task_manager/app/main.py: when the topic goes.
use live_streaming_data_pipe.Base.{◌≡◌, refl, Text, Bool, true, false, some}
use live_streaming_data_pipe.Base.Exec.{Result, ok, err, continue, ◌>>=◌}
use live_streaming_data_pipe.Model.{PipelineConfig, live}
use live_streaming_data_pipe.Repo.Redis.{Redis}
use live_streaming_data_pipe.Repo.Store.{get_config}
use live_streaming_data_pipe.Runtime.{RuntimeAdapter, Provisioning}
use live_streaming_data_pipe.Api.Reply.{
  Reply, message, created_record, status_record, listing, logs, no_content, http_error,
}
use live_streaming_data_pipe.Api.Lifecycle.{stop_pipeline}
use live_streaming_data_pipe.Api.Rollback.{Unknown, delete_pipeline-Unknown}
use live_streaming_data_pipe.Api.Records.{if_drained, drain, drop_record, delete_pipeline}

module _ (rd : Redis) (rt : RuntimeAdapter rd.World) (pv : Provisioning rd.World) where
  open rd use {World}

  -- A deletion from the world `w` to the world `v`: the stop has answered, the topic was drained in the
  -- world after it, the topic was deleted after that, and then the record.
  pub record Deletion (pid : Text) (config : PipelineConfig) (w v : World) : Type 0 where
    pub reply : Reply
    pub stopped : (stop_pipeline rd rt pid w).0 ≡ ok reply
    pub drained : (pv.wait_for_drain config (stop_pipeline rd rt pid w).1).0 ≡ ok true
    pub topic_gone :
        (pv.delete_topic config (pv.wait_for_drain config (stop_pipeline rd rt pid w).1).1).0
        ≡ ok tt
    pub record_gone : Unknown rd rt pv pid v

  -- What `drain` does on an answer that is no `HTTPException`.
  abbrev deleted_after : Text → PipelineConfig → World → Result Bool → Result Reply × World
  deleted_after pid config w r =
      continue r (if_drained rd rt pv pid config) (pv.wait_for_drain config w).1

  topic-Deletion :
      (pid : Text) (config : PipelineConfig) (w : World) (reply : Reply) (r : Result (Unit {0}))
      → (stop_pipeline rd rt pid w).0 ≡ ok reply
      → (pv.wait_for_drain config (stop_pipeline rd rt pid w).1).0 ≡ ok true
      → (pv.delete_topic config (pv.wait_for_drain config (stop_pipeline rd rt pid w).1).1).0 ≡ r
      → let x =
          continue r
            (λ u. drop_record rd rt pv pid)
            (pv.delete_topic config (pv.wait_for_drain config (stop_pipeline rd rt pid w).1).1).1 in
        x.0 ≡ ok no_content → Deletion pid config w x.1
  topic-Deletion pid config w reply (ok u) s d t h = record {
    reply = reply;
    stopped = s;
    drained = d;
    topic_gone = t;
    record_gone =
        delete_pipeline-Unknown rd rt pv pid
          (pv.delete_topic config (pv.wait_for_drain config (stop_pipeline rd rt pid w).1).1).1;
  }
  topic-Deletion pid config w reply (err e) s d t h = absurd cc

  drained-Deletion :
      (pid : Text) (config : PipelineConfig) (w : World) (reply : Reply) (r : Result Bool)
      → (stop_pipeline rd rt pid w).0 ≡ ok reply
      → (pv.wait_for_drain config (stop_pipeline rd rt pid w).1).0 ≡ r
      → let x = deleted_after pid config (stop_pipeline rd rt pid w).1 r in
        x.0 ≡ ok no_content → Deletion pid config w x.1
  unfolding ◌>>=◌
  drained-Deletion pid config w reply (ok true) s d h =
      topic-Deletion pid config w reply
        (pv.delete_topic config (pv.wait_for_drain config (stop_pipeline rd rt pid w).1).1).0 s d
        refl h
  drained-Deletion pid config w reply (ok false) s d h = absurd cc
  drained-Deletion pid config w reply (err e) s d h = absurd cc

  answered-Deletion :
      (pid : Text) (config : PipelineConfig) (w : World) (reply : Reply)
      → (stop_pipeline rd rt pid w).0 ≡ ok reply
      → let w' = (stop_pipeline rd rt pid w).1 in
        let x = deleted_after pid config w' (pv.wait_for_drain config w').0 in
        x.0 ≡ ok no_content → Deletion pid config w x.1
  answered-Deletion pid config w reply s h =
      drained-Deletion pid config w reply (pv.wait_for_drain config (stop_pipeline rd rt pid w).1).0
        s refl h

  -- The deletion of a live pipeline, by what the stop answers.
  stopped-Deletion :
      (pid : Text) (config : PipelineConfig) (w : World) (r : Result Reply)
      → (stop_pipeline rd rt pid w).0 ≡ r
      → let x = continue r (drain rd rt pv pid config) (stop_pipeline rd rt pid w).1 in
        x.0 ≡ ok no_content → Deletion pid config w x.1
  unfolding ◌>>=◌
  stopped-Deletion pid config w (err e) s h = absurd cc
  stopped-Deletion pid config w (ok (http_error code t)) s h = absurd cc
  stopped-Deletion pid config w (ok (message t state)) s h =
      answered-Deletion pid config w (message t state) s h
  stopped-Deletion pid config w (ok (created_record c state t)) s h =
      answered-Deletion pid config w (created_record c state t) s h
  stopped-Deletion pid config w (ok (status_record c state)) s h =
      answered-Deletion pid config w (status_record c state) s h
  stopped-Deletion pid config w (ok (listing rows)) s h =
      answered-Deletion pid config w (listing rows) s h
  stopped-Deletion pid config w (ok (logs p c t)) s h =
      answered-Deletion pid config w (logs p c t) s h
  stopped-Deletion pid config w (ok no_content) s h = answered-Deletion pid config w no_content s h

  -- If the deletion of a live pipeline answers 204, then the stop before it has answered, `wait_for_drain`
  -- returned `True` after the stop, `delete_topic` returned after that, and Redis holds neither a
  -- configuration nor a state for the pipeline.
  pub delete_pipeline-Deletion :
      (pid : Text) (config : PipelineConfig) (w : World)
      → (get_config rd pid w).0 ≡ ok (some config)
      → config.pipeline_type ≡ live
      → (delete_pipeline rd rt pv pid w).0 ≡ ok no_content
      → Deletion pid config (get_config rd pid w).1 (delete_pipeline rd rt pv pid w).1
  unfolding delete_pipeline ◌>>=◌
  delete_pipeline-Deletion pid config w found is_live = rw found (
      simp is_live (
        stopped-Deletion pid config (get_config rd pid w).1
          (stop_pipeline rd rt pid (get_config rd pid w).1).0 refl))
