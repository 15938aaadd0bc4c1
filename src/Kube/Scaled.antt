-- ===== src/Kube/Scaled.antt =====
-- On `KubernetesRuntimeAdapter` of
-- services/task_manager/common/app_common/runtime/kubernetes_runtime.py: the replicas that it leaves.
use live_streaming_data_pipe.Base.{
  ℕ, ◌≡◌, ◌≢◌, ◌⊎◌, inl, inr, refl, ap, ◌∙◌, Text, true, false, Bool-cases, Option, none, some, [],
  ==_iff,
}
use live_streaming_data_pipe.Base.Exec.{Exc, Result, ok, err, continue, ◌>>=◌}
use live_streaming_data_pipe.Json.{Value}
use live_streaming_data_pipe.Model.{PipelineConfig}
use live_streaming_data_pipe.Sources.{Numbers}
use live_streaming_data_pipe.Telegraf.{Disk}
use live_streaming_data_pipe.Kube.Cluster.{Cluster, Answers, name_in, replicas_in, status_of}
use live_streaming_data_pipe.Kube.Manifest.{
  Settings, Loader, deployment_name, render_producer_deployment,
}
use live_streaming_data_pipe.Kube.Loaded.{load-replicas, load-status}
use live_streaming_data_pipe.Kube.Adapter.{
  Adapter, is_status, has_status, load, back, call, after_create, apply_manifest, apply_deployment,
  after_scale, scale, start_live_pipeline, stop_live_pipeline,
}

is_status-some : (n : ℕ) (s : Option ℕ) → is_status n s ≡ true → s ≡ some n
is_status-some n none h = cc
is_status-some n (some s) h = ap some ((==_iff s n).0 h)

module _ {World : Type 0} (cl : Cluster World) (laws : Answers cl) where
  -- The deployments but `name` ask for as many replicas as before.
  abbrev pub Apart : Text → Adapter World → Adapter World → Type 0
  Apart name before final =
      (other : Text)
      → other ≢ name
      → laws.replicas other final.world ≡ laws.replicas other before.world

  -- The exceptions of an application of the manifest `m` at the deployment `name`.
  pub data Raised (context : Option Text) (m : Value) (name : Text) (a : Adapter World) (e : Exc)
      : Type 0 where
    at_load : (load cl context a).0 ≡ err e → Raised context m name a e
    at_create :
        (cl.create_deployment m (load cl context a).1.world).0 ≡ err e
        → has_status 409 e ≡ false
        → Raised context m name a e
    at_patch :
        (x : Exc)
        → (cl.create_deployment m (load cl context a).1.world).0 ≡ err x
        → has_status 409 x ≡ true
        → (cl.patch_deployment name m (cl.create_deployment m (load cl context a).1.world).1).0
          ≡ err e
        → Raised context m name a e

  -- An application of the manifest `m`: the deployment asks for `n` replicas, or an exception says why not.
  pub data Applied (context : Option Text) (m : Value) (name : Text) (n : ℕ) (a : Adapter World)
      : Result (Unit {0}) × Adapter World → Type 0 where
    applied :
        (b : Adapter World)
        → laws.replicas name b.world ≡ some n
        → Apart name a b
        → Applied context m name n a (ok tt, b)
    refused :
        (e : Exc) (b : Adapter World)
        → Raised context m name a e
        → Apart name a b
        → Applied context m name n a (err e, b)

  module _ (context : Option Text) (m : Value) (name : Text) (n : ℕ) (named : name_in m ≡ some name)
      (sized : replicas_in m ≡ some n) (a : Adapter World) where
    abbrev l : Adapter World
    l = (load cl context a).1

    abbrev w1 : World
    w1 = (cl.create_deployment m l.world).1

    abbrev w2 : World
    w2 = (cl.patch_deployment name m w1).1

    created-Apart : Apart name a (record { loaded = l.loaded; world = w1 })
    created-Apart other ne =
        laws.created_other m name other l.world named ne ∙ load-replicas cl laws context other a

    patched-Apart : Apart name a (record { loaded = l.loaded; world = w2 })
    patched-Apart other ne = laws.patched_other m name other w1 ne ∙ created-Apart other ne

    after_patch-Applied :
        (x : Exc) (r : Result (Unit {0}))
        → (cl.create_deployment m l.world).0 ≡ err x
        → has_status 409 x ≡ true
        → (cl.patch_deployment name m w1).0 ≡ r
        → Applied context m name n a (r, record { loaded = l.loaded; world = w2 })
    after_patch-Applied x (ok u) p q h =
        applied (record { loaded = l.loaded; world = w2 }) (laws.patched m name n w1 sized h)
          patched-Apart
    after_patch-Applied x (err e) p q h =
        refused e (record { loaded = l.loaded; world = w2 }) (at_patch x p q h) patched-Apart

    after_create-Applied :
        (r : Result (Unit {0}))
        → (cl.create_deployment m l.world).0 ≡ r
        → Applied context m name n a
            (after_create cl m (r, record { loaded = l.loaded; world = w1 }))
    after_create-Applied (ok u) h =
        applied (record { loaded = l.loaded; world = w1 })
          (laws.created m name n l.world named sized h) created-Apart
    after_create-Applied (err e) h = elim (Bool-cases (has_status 409 e)) [
      | inl exists ↦
          rw (exists, named) (after_patch-Applied e (cl.patch_deployment name m w1).0 h exists refl)
      | inr fresh ↦
          rw fresh
            (refused e (record { loaded = l.loaded; world = w1 }) (at_create h fresh) created-Apart)
    ]

    loaded-Applied :
        (r : Result (Unit {0}))
        → (load cl context a).0 ≡ r
        → Applied context m name n a (
            continue r
              (λ u b. after_create cl m (back cl b.loaded (cl.create_deployment m b.world)))
              (load cl context a).1)
    loaded-Applied (ok u) h = after_create-Applied (cl.create_deployment m l.world).0 refl
    loaded-Applied (err e) h =
        refused e l (at_load h) (λ other ne. load-replicas cl laws context other a)

    apply_manifest-Applied : Applied context m name n a (apply_manifest cl context m a)
    unfolding apply_manifest ◌>>=◌
    apply_manifest-Applied = loaded-Applied (load cl context a).0 refl

  module _ (ns : Numbers) (disk : Disk) (loader : Loader) (settings : Settings)
      (config : PipelineConfig) (a : Adapter World) where
    abbrev name : Text
    name = deployment_name config.pipeline_id

    -- The end of a start: the container's name is returned and the deployment asks for one replica, or an
    -- exception of the application is raised; other deployments keep their replicas.
    pub data Started (m : Value) : Result (Text × Text) × Adapter World → Type 0 where
      started :
          (b : Adapter World)
          → laws.replicas name b.world ≡ some 1
          → Apart name a b
          → Started m (ok (name, []), b)
      failed :
          (e : Exc) (b : Adapter World)
          → Raised settings.context m name a e
          → Apart name a b
          → Started m (err e, b)

    applied-Started :
        (m : Value) (x : Result (Unit {0}) × Adapter World)
        → Applied settings.context m name 1 a x
        → Started m (continue x.0 (λ u b. (ok (name, []), b)) x.1)
    applied-Started m x (applied b h o) = started b h o
    applied-Started m x (refused e b h o) = failed e b h o

    -- If the rendered manifest names the pipeline's deployment and asks for one replica, then
    -- `start_live_pipeline` returns that name, and the deployment asks for one replica, whether it was there
    -- before or not; or it raises what loading the configuration, the creation (other than 409) or
    -- the patch after a 409 raised. Other deployments keep their replicas.
    pub start_live_pipeline-Started :
        (m : Value)
        → render_producer_deployment ns disk loader settings config 1 ≡ ok m
        → name_in m ≡ some (deployment_name config.pipeline_id)
        → replicas_in m ≡ some 1
        → Started m (start_live_pipeline cl ns disk loader settings config a)
    unfolding start_live_pipeline apply_deployment ◌>>=◌
    start_live_pipeline-Started m rendered named sized = rw rendered (
        applied-Started m (apply_manifest cl settings.context m a)
          (apply_manifest-Applied settings.context m name 1 named sized a))

    -- The end of a stop: the deployment asks for no replica or is gone, or loading the configuration or
    -- scaling (other than 404) has raised.
    pub data Stopped : Result (Unit {0}) × Adapter World → Type 0 where
      stopped :
          (b : Adapter World)
          → (laws.replicas name b.world ≡ some 0) ⊎ (laws.replicas name b.world ≡ none)
          → Apart name a b
          → Stopped (ok tt, b)
      failed :
          (e : Exc) (b : Adapter World)
          → ((load cl settings.context a).0 ≡ err e)
            ⊎ (((cl.patch_scale name 0 (load cl settings.context a).1.world).0 ≡ err e)
                × (has_status 404 e ≡ false))
          → Apart name a b
          → Stopped (err e, b)

    abbrev scaled_world : World
    scaled_world = (cl.patch_scale name 0 (load cl settings.context a).1.world).1

    abbrev after : Adapter World
    after = record { loaded = (load cl settings.context a).1.loaded; world = scaled_world }

    scaled-Apart : Apart name a after
    scaled-Apart other ne =
        laws.scaled_other name other 0 (load cl settings.context a).1.world ne
        ∙ load-replicas cl laws settings.context other a

    scaled-Stopped :
        (r : Result (Unit {0}))
        → (cl.patch_scale name 0 (load cl settings.context a).1.world).0 ≡ r
        → Stopped (after_scale cl (r, after))
    scaled-Stopped (ok u) h =
        stopped after (inl (laws.scaled name 0 (load cl settings.context a).1.world h)) scaled-Apart
    scaled-Stopped (err e) h = elim (Bool-cases (has_status 404 e)) [
      | inl gone ↦ rw gone (
          stopped after
            (inr (
              laws.scaled_gone name 0 (load cl settings.context a).1.world e h
                (is_status-some 404 (status_of e.kind) gone)))
            scaled-Apart)
      | inr other ↦ rw other (failed e after (inr (h, other)) scaled-Apart)
    ]

    loaded-Stopped :
        (r : Result (Unit {0}))
        → (load cl settings.context a).0 ≡ r
        → Stopped (
            after_scale cl
              (continue r (λ u. call cl (cl.patch_scale name 0)) (load cl settings.context a).1))
    loaded-Stopped (ok u) h =
        scaled-Stopped (cl.patch_scale name 0 (load cl settings.context a).1.world).0 refl
    loaded-Stopped (err e) h =
        let none_there : status_of e.kind ≡ none = load-status cl laws settings.context e a h in
        simp none_there (
          failed e (load cl settings.context a).1 (inl h)
            (λ other ne. load-replicas cl laws settings.context other a))

    -- `stop_live_pipeline` returns, and then the pipeline's deployment asks for no replica or is gone; or it
    -- raises what loading the configuration or scaling (other than 404) raised. Other deployments keep
    -- their replicas.
    pub stop_live_pipeline-Stopped :
        Stopped (stop_live_pipeline cl ns disk loader settings config a)
    unfolding stop_live_pipeline scale ◌>>=◌
    stop_live_pipeline-Stopped = loaded-Stopped (load cl settings.context a).0 refl
