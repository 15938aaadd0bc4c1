-- ===== src/Kube/Loaded.antt =====
-- On `KubernetesRuntimeAdapter` of
-- services/task_manager/common/app_common/runtime/kubernetes_runtime.py: the configuration of the client.
use live_streaming_data_pipe.Base.{
  ℕ, ◌≡◌, inl, inr, refl, sym, ap, ◌∙◌, Text, Bool, true, false, Bool-cases, Option, none, some, [],
  ◌∷◌, if◌then◌else◌,
}
use live_streaming_data_pipe.Base.Exec.{Exc, Result, ok, err, continue, ◌>>=◌}
use live_streaming_data_pipe.Kube.Cluster.{Cluster, Answers, status_of}
use live_streaming_data_pipe.Kube.Adapter.{
  Adapter, is_config_exception, load, load_context, after_incluster, call,
}

abbrev kind_status : Result (Unit {0}) → Option ℕ
kind_status (ok u) = none
kind_status (err e) = status_of e.kind

module _ {World : Type 0} (cl : Cluster World) (laws : Answers cl) where
  after_incluster-replicas :
      (context : Option Text) (name : Text) (r : Result (Unit {0})) (a : Adapter World)
      → laws.replicas name (after_incluster cl context (r, a)).1.world ≡ laws.replicas name a.world
  unfolding ◌>>=◌
  after_incluster-replicas context name (ok u) a = refl
  after_incluster-replicas context name (err e) a = by_kind (is_config_exception e.kind) context
    where
      named :
          (r : Result (Unit {0})) (c : Text) (w : World)
          → laws.replicas name w ≡ laws.replicas name a.world
          → laws.replicas name
              (continue {W = Adapter World} r
                (λ u b. (ok (tt {0}), record b { loaded = true }))
                (record { loaded = a.loaded; world = w })).1.world
            ≡ laws.replicas name a.world
      named (ok u) c w h = h
      named (err x) c w h = h

      by_kind :
          (b : Bool) (context : Option Text)
          → laws.replicas name ((if b then load_context cl context else λ a. (err e, a)) a).1.world
            ≡ laws.replicas name a.world
      by_kind false context = refl
      by_kind true none = refl
      by_kind true (some []) = refl
      by_kind true (some (c ∷ s)) =
          named (cl.load_kube_config (c ∷ s) a.world).0 (c ∷ s)
            (cl.load_kube_config (c ∷ s) a.world).1 (laws.loaded_named (c ∷ s) name a.world)

  -- Loading the configuration changes no deployment.
  pub load-replicas :
      (context : Option Text) (name : Text) (a : Adapter World)
      → laws.replicas name (load cl context a).1.world ≡ laws.replicas name a.world
  unfolding load
  load-replicas context name a = elim (Bool-cases a.loaded) [
    | inl already ↦ simp already refl
    | inr first ↦ simp first (
        after_incluster-replicas context name (cl.load_incluster_config a.world).0
          (record { loaded = false; world = (cl.load_incluster_config a.world).1 })
        ∙ laws.loaded_incluster name a.world)
  ]

  after_incluster-status :
      (context : Option Text) (e : Exc) (r : Result (Unit {0})) (a : Adapter World)
      → ((x : Exc) → r ≡ err x → status_of x.kind ≡ none)
      → (after_incluster cl context (r, a)).0 ≡ err e
      → status_of e.kind ≡ none
  unfolding ◌>>=◌
  after_incluster-status context e (ok u) a f h = cc
  after_incluster-status context e (err x) a f h = by_kind (is_config_exception x.kind) context h
    where
      named :
          (c : Text) (r : Result (Unit {0})) (w : World)
          → (cl.load_kube_config c a.world).0 ≡ r
          → (continue {W = Adapter World} r
              (λ u b. (ok (tt {0}), record b { loaded = true }))
              (record { loaded = a.loaded; world = w })).0
            ≡ err e
          → status_of e.kind ≡ none
      named c (ok u) w p q = cc
      named c (err y) w p q = laws.named_status c e a.world (p ∙ q)

      by_kind :
          (b : Bool) (context : Option Text)
          → ((if b then load_context cl context else λ a. (err x, a)) a).0 ≡ err e
          → status_of e.kind ≡ none
      by_kind false context q = f e q
      by_kind true none q = ap (λ (r : Result (Unit {0})). kind_status r) (sym q)
      by_kind true (some []) q = ap (λ (r : Result (Unit {0})). kind_status r) (sym q)
      by_kind true (some (c ∷ s)) q =
          named (c ∷ s) (cl.load_kube_config (c ∷ s) a.world).0
            (cl.load_kube_config (c ∷ s) a.world).1 refl q

  pub load-status :
      (context : Option Text) (e : Exc) (a : Adapter World)
      → (load cl context a).0 ≡ err e
      → status_of e.kind ≡ none
  unfolding load
  load-status context e a = by_flag a.loaded
    where
      by_flag :
          (b : Bool)
          → (if b
              then (ok tt, a)
              else after_incluster cl context (call cl cl.load_incluster_config a)).0
            ≡ err e
          → status_of e.kind ≡ none
      by_flag true q = cc
      by_flag false q =
          after_incluster-status context e (cl.load_incluster_config a.world).0
            (record { loaded = a.loaded; world = (cl.load_incluster_config a.world).1 })
            (λ x p. laws.incluster_status x a.world p) q
