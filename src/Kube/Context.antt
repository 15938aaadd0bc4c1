-- ===== src/Kube/Context.antt =====
-- On `KubernetesRuntimeAdapter` of
-- services/task_manager/common/app_common/runtime/kubernetes_runtime.py: which contexts of the machine's
-- configuration it loads.
use mathlib.Core.Path.{fun_ext}
use live_streaming_data_pipe.Base.{
  ℕ, ap, ◌≡◌, refl, Text, Bool, true, false, Option, none, some, [], ◌∷◌, if◌then◌else◌,
}
use live_streaming_data_pipe.Base.Exec.{Result, ok, err, Exec, ◌>>=◌}
use live_streaming_data_pipe.Model.{PipelineConfig}
use live_streaming_data_pipe.Sources.{Numbers}
use live_streaming_data_pipe.Telegraf.{Disk}
use live_streaming_data_pipe.Kube.Cluster.{Cluster}
use live_streaming_data_pipe.Kube.Manifest.{
  Settings, Loader, deployment_name, render_producer_deployment,
}
use live_streaming_data_pipe.Json.{Value}
use live_streaming_data_pipe.Kube.Adapter.{
  Adapter, is_config_exception, load, load_context, after_incluster, apply_manifest,
  apply_deployment, scale, restart_rollout, start_live_pipeline, stop_live_pipeline,
  restart_live_pipeline,
}

module _ {World : Type 0} (cl : Cluster World) (context : Option Text)
    (f : Text → Exec World (Unit {0})) where
  -- The same cluster, with another effect of loading a context.
  abbrev pub elsewhere : Cluster World
  elsewhere = record cl { load_kube_config = f }

  -- The other effect is the same at the configured context, if that is set and not empty.
  abbrev pub SameAtContext : Type 0
  SameAtContext =
      (c : _) (s : Text) (w : World)
      → context ≡ some (c ∷ s)
      → f (c ∷ s) w ≡ cl.load_kube_config (c ∷ s) w

load_context-elsewhere :
    {World : Type 0} (cl : Cluster World) (context : Option Text) (f : Text → Exec World (Unit {0}))
    (a : Adapter World)
    → SameAtContext cl context f
    → load_context (elsewhere cl context f) context a ≡ load_context cl context a
unfolding ◌>>=◌
load_context-elsewhere cl none f a h = refl
load_context-elsewhere cl (some []) f a h = refl
load_context-elsewhere cl (some (c ∷ s)) f a h = rw (h c s a.world refl) refl

module _ {World : Type 0} (cl : Cluster World) (context : Option Text)
    (f : Text → Exec World (Unit {0})) (h : SameAtContext cl context f) where
  after_incluster-elsewhere :
      (r : Result (Unit {0})) (a : Adapter World)
      → after_incluster (elsewhere cl context f) context (r, a) ≡ after_incluster cl context (r, a)
  after_incluster-elsewhere (ok u) a = refl
  after_incluster-elsewhere (err e) a = by_kind (is_config_exception e.kind)
    where
      by_kind :
          (b : Bool)
          → (if b then load_context (elsewhere cl context f) context else λ v. (err e, v)) a
            ≡ (if b then load_context cl context else λ v. (err e, v)) a
      by_kind true = load_context-elsewhere cl context f a h
      by_kind false = refl

  load-elsewhere : load (elsewhere cl context f) context ≡ load cl context
  unfolding load
  load-elsewhere = fun_ext (λ a.
      rw
        (after_incluster-elsewhere (cl.load_incluster_config a.world).0
          (record { loaded = a.loaded; world = (cl.load_incluster_config a.world).1 }))
        refl)

  apply_deployment-elsewhere :
      (m : Result Value)
      → apply_deployment (elsewhere cl context f) context m ≡ apply_deployment cl context m
  unfolding apply_deployment apply_manifest ◌>>=◌
  apply_deployment-elsewhere (ok m) = rw load-elsewhere refl
  apply_deployment-elsewhere (err e) = refl

  load_at-elsewhere :
      (a : Adapter World) → load (elsewhere cl context f) context a ≡ load cl context a
  load_at-elsewhere a = ap (λ (m : Exec (Adapter World) (Unit {0})). m a) load-elsewhere

  scale-elsewhere :
      (name : Text) (n : ℕ) (a : Adapter World)
      → scale (elsewhere cl context f) context name n a ≡ scale cl context name n a
  unfolding scale ◌>>=◌
  scale-elsewhere name n a = rw (load_at-elsewhere a) refl

  restart_rollout-elsewhere :
      (name : Text)
      → restart_rollout (elsewhere cl context f) context name ≡ restart_rollout cl context name
  unfolding restart_rollout ◌>>=◌
  restart_rollout-elsewhere name = fun_ext (λ a. rw (load_at-elsewhere a) refl)

-- A start, a stop and a restart come out the same when loading a context does anything else than it
-- does, at every context but the configured one: they load no other context of the machine's
-- configuration, and none at all when no context, or an empty one, is configured.
pub live_pipeline-elsewhere :
    {World : Type 0} (cl : Cluster World) (ns : Numbers) (disk : Disk) (loader : Loader)
    (settings : Settings) (config : PipelineConfig) (f : Text → Exec World (Unit {0}))
    (a : Adapter World)
    → SameAtContext cl settings.context f
    → let cl' = elsewhere cl settings.context f in
      (start_live_pipeline cl' ns disk loader settings config a
        ≡ start_live_pipeline cl ns disk loader settings config a)
      × (stop_live_pipeline cl' ns disk loader settings config a
          ≡ stop_live_pipeline cl ns disk loader settings config a)
      × (restart_live_pipeline cl' ns disk loader settings config a
          ≡ restart_live_pipeline cl ns disk loader settings config a)
unfolding start_live_pipeline restart_live_pipeline stop_live_pipeline ◌>>=◌
live_pipeline-elsewhere cl ns disk loader settings config f a h =
    let applied =
      apply_deployment-elsewhere cl settings.context f h
        (render_producer_deployment ns disk loader settings config 1) in
    let rolled =
      restart_rollout-elsewhere cl settings.context f h (deployment_name config.pipeline_id) in
    (
      rw applied refl,
      scale-elsewhere cl settings.context f h (deployment_name config.pipeline_id) 0 a,
      rw (applied, rolled) refl,
    )
