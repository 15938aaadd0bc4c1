-- ===== src/Kube/Adapter.antt =====
-- `KubernetesRuntimeAdapter` of
-- services/task_manager/common/app_common/runtime/kubernetes_runtime.py, for calls one after another.
use live_streaming_data_pipe.Base.{
  ℕ, Text, codes, Bool, true, false, not, Option, none, some, List, [], ◌∷◌, ◌++◌, ◌==◌,
  if◌then◌else◌,
}
use live_streaming_data_pipe.Base.Int.{nat_str}
use live_streaming_data_pipe.Base.Exec.{
  Exc, ExcKind, runtime_error, config_exception, api_exception, Result, ok, err, Exec, pure, raise,
  ◌>>=◌, ◌>>◌,
}
use live_streaming_data_pipe.Json.{Value, str, obj, end, field}
use live_streaming_data_pipe.Model.{PipelineConfig}
use live_streaming_data_pipe.Runtime.{RuntimeAdapter}
use live_streaming_data_pipe.Sources.{Numbers}
use live_streaming_data_pipe.Telegraf.{Disk}
use live_streaming_data_pipe.Pool.Topic.{strip_prefix}
use live_streaming_data_pipe.Kube.Cluster.{Cluster, name_in, status_of}
use live_streaming_data_pipe.Kube.Manifest.{
  Settings, Loader, missing, deployment_name, render_producer_deployment,
}

-- The adapter's `_loaded`, and the world.
pub record Adapter (World : Type 0) : Type 0 where
  pub loaded : Bool
  pub world : World

abbrev pub is_config_exception : ExcKind → Bool
is_config_exception config_exception = true
is_config_exception _ = false

abbrev pub is_status : ℕ → Option ℕ → Bool
is_status n none = false
is_status n (some s) = s == n

abbrev pub is_api_exception : ExcKind → Bool
is_api_exception (api_exception s) = true
is_api_exception _ = false

-- `except ApiException` with the status `n`
abbrev pub has_status : ℕ → Exc → Bool
has_status n e = is_status n (status_of e.kind)

abbrev pub no_context : Exc
no_context = record {
  kind = runtime_error;
  name = codes "RuntimeError";
  message = codes "No in-cluster Kubernetes config and no explicit kube_context";
}

-- `n or 0` as a truth value
abbrev pub is_some_number : Option ℕ → Bool
is_some_number none = false
is_some_number (some n) = not (n == 0)

-- `text.removeprefix(prefix)`
abbrev pub or_whole : Text → Option Text → Text
or_whole t none = t
or_whole t (some s) = s

-- the patch of `_restart_rollout`
abbrev pub restarted_at : Text → Value
restarted_at now =
    let annotation = field (codes "kubectl.kubernetes.io/restartedAt") (str now) end in
    let metadata =
      field (codes "metadata") (obj (field (codes "annotations") (obj annotation) end)) end in
    obj (field (codes "spec") (obj (field (codes "template") (obj metadata) end)) end)

abbrev pub no_pods : Text → Text
no_pods name = codes "[no pods for " ++ (name ++ codes "]")

-- `str(exc.status)`
abbrev pub status_text : Option ℕ → Text
status_text none = codes "None"
status_text (some n) = nat_str n

-- The message of the exception stands for its reason.
unfoldable pub log_error : Exc → Text
unfolding nat_str
log_error e =
    codes "[error fetching logs: "
    ++ (status_text (status_of e.kind) ++ (codes " " ++ (e.message ++ codes "]")))

module _ {World : Type 0} (cl : Cluster World) where
  -- a call of the client
  abbrev pub back : {A : Type 0} → Bool → Result A × World → Result A × Adapter World
  back b (r, w) = (r, record { loaded = b; world = w })

  abbrev pub call : {A : Type 0} → Exec World A → Exec (Adapter World) A
  call m a = back a.loaded (m a.world)

  abbrev pub set_loaded : Exec (Adapter World) (Unit {0})
  set_loaded a = (ok tt, record a { loaded = true })

  -- the handler of `_load`: an empty context is none
  abbrev pub load_context : Option Text → Exec (Adapter World) (Unit {0})
  load_context none = raise no_context
  load_context (some []) = raise no_context
  load_context (some (c ∷ s)) = call (cl.load_kube_config (c ∷ s)) >> set_loaded

  abbrev pub after_incluster :
      Option Text → Result (Unit {0}) × Adapter World → Result (Unit {0}) × Adapter World
  after_incluster context (ok u, a) = set_loaded a
  after_incluster context (err e, a) =
      (if is_config_exception e.kind then load_context context else raise e) a

  -- `_load`
  unfoldable pub load : Option Text → Exec (Adapter World) (Unit {0})
  unfolding ◌>>=◌
  load context a =
      if a.loaded then (ok tt, a) else after_incluster context (call cl.load_incluster_config a)

  abbrev pub patch_named : Value → Option Text → Exec (Adapter World) (Unit {0})
  patch_named manifest none = raise (missing (codes "name"))
  patch_named manifest (some name) = call (cl.patch_deployment name manifest)

  abbrev pub after_create :
      Value → Result (Unit {0}) × Adapter World → Result (Unit {0}) × Adapter World
  after_create manifest (ok u, a) = (ok tt, a)
  after_create manifest (err e, a) =
      (if has_status 409 e then patch_named manifest (name_in manifest) else raise e) a

  -- `_apply_deployment` from the manifest on
  unfoldable pub apply_manifest : Option Text → Value → Exec (Adapter World) (Unit {0})
  unfolding load name_in ◌>>=◌
  apply_manifest context manifest =
      load context >>= λ u a. after_create manifest (call (cl.create_deployment manifest) a)

  unfoldable pub apply_deployment : Option Text → Result Value → Exec (Adapter World) (Unit {0})
  unfolding apply_manifest
  apply_deployment context (ok manifest) = apply_manifest context manifest
  apply_deployment context (err e) = raise e

  abbrev pub after_scale : Result (Unit {0}) × Adapter World → Result (Unit {0}) × Adapter World
  after_scale (ok u, a) = (ok tt, a)
  after_scale (err e, a) = (if has_status 404 e then ok tt else err e, a)

  -- `_scale`
  unfoldable pub scale : Option Text → Text → ℕ → Exec (Adapter World) (Unit {0})
  unfolding load ◌>>=◌
  scale context name replicas a =
      after_scale ((load context >> call (cl.patch_scale name replicas)) a)

  abbrev pub now_iso : Exec World Text
  now_iso w = let (t, w') = cl.now_iso w in (ok t, w')

  -- `_restart_rollout`
  unfoldable pub restart_rollout : Option Text → Text → Exec (Adapter World) (Unit {0})
  unfolding load ◌>>=◌
  restart_rollout context name =
      load context >> (call now_iso >>= λ now. call (cl.patch_deployment name (restarted_at now)))

  -- `_pods_for`
  unfoldable pub pods_for : Option Text → Text → Exec (Adapter World) (List Text)
  unfolding load strip_prefix ◌>>=◌
  pods_for context name =
      load context
      >> call (
          cl.list_pods
            (codes "pipeline-id=" ++ or_whole name (strip_prefix (codes "producer-") name)))

  abbrev pub log_of : Option Text → Text → ℕ → List Text → Exec (Adapter World) Text
  log_of context name tail [] = pure (no_pods name)
  log_of context name tail (pod ∷ pods) = load context >> call (cl.read_log pod tail)

  abbrev pub or_log_error : Result Text × Adapter World → Result Text × Adapter World
  or_log_error (ok t, a) = (ok t, a)
  or_log_error (err e, a) = (if is_api_exception e.kind then ok (log_error e) else err e, a)

  -- `_pod_logs`
  unfoldable pub pod_logs : Option Text → Text → ℕ → Exec (Adapter World) Text
  unfolding pods_for load log_error ◌>>=◌
  pod_logs context name tail a =
      or_log_error ((pods_for context name >>= log_of context name tail) a)

  -- `_ready`: the loading stands inside the `try`
  abbrev pub or_gone : Result (Option ℕ) × Adapter World → Result Bool × Adapter World
  or_gone (ok n, a) = (ok (is_some_number n), a)
  or_gone (err e, a) = (if has_status 404 e then ok false else err e, a)

  unfoldable pub ready : Option Text → Text → Exec (Adapter World) Bool
  unfolding load ◌>>=◌
  ready context name a = or_gone ((load context >> call (cl.read_ready name)) a)

module _ {World : Type 0} (cl : Cluster World) (ns : Numbers) (disk : Disk) (loader : Loader)
    (settings : Settings) where
  unfoldable pub start_live_pipeline : PipelineConfig → Exec (Adapter World) (Text × Text)
  unfolding apply_deployment render_producer_deployment deployment_name ◌>>=◌
  start_live_pipeline config =
      apply_deployment cl settings.context
        (render_producer_deployment ns disk loader settings config 1)
      >> pure (deployment_name config.pipeline_id, [])

  unfoldable pub stop_live_pipeline : PipelineConfig → Exec (Adapter World) (Unit {0})
  unfolding scale deployment_name
  stop_live_pipeline config = scale cl settings.context (deployment_name config.pipeline_id) 0

  unfoldable pub restart_live_pipeline : PipelineConfig → Exec (Adapter World) (Text × Text)
  unfolding apply_deployment restart_rollout render_producer_deployment deployment_name ◌>>=◌
  restart_live_pipeline config =
      apply_deployment cl settings.context
        (render_producer_deployment ns disk loader settings config 1)
      >> restart_rollout cl settings.context (deployment_name config.pipeline_id)
      >> pure (deployment_name config.pipeline_id, [])

  -- The adapter as the services use it.
  unfoldable pub kubernetes : RuntimeAdapter (Adapter World)
  unfolding start_live_pipeline stop_live_pipeline restart_live_pipeline pod_logs ready
  kubernetes = record {
    start_live_pipeline = λ config state. start_live_pipeline config;
    stop_live_pipeline = λ config state. stop_live_pipeline config;
    restart_live_pipeline = λ config state. restart_live_pipeline config;
    get_logs = λ name tail. pod_logs cl settings.context name tail;
    is_running = λ name. ready cl settings.context name;
  }
