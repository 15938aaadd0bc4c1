-- ===== src/Pool/Batch/Registry.antt =====
-- On `PipelineRegistry.get` of services/consumer_pool/app/main.py: where the configurations that it returns
-- come from.
use mathlib.Core.Path.{subst}
use live_streaming_data_pipe.Base.{
  ◌≡◌, refl, sym, ◌∙◌, Text, text_eq, text_eq_iff, Bool, true, false, Option, none, some,
  if◌then◌else◌,
}
use live_streaming_data_pipe.Base.Dict.{Dict, lookup, lookup-insert}
use live_streaming_data_pipe.Base.Exec.{Result, ok, err, Exec}
use live_streaming_data_pipe.Model.{PipelineConfig}
use live_streaming_data_pipe.Pool.Topic.{topic_pipeline_id}
use live_streaming_data_pipe.Pool.Consumer
use live_streaming_data_pipe.Pool.Consumer.{Pool, remember, on_miss, on_cache, registry_get}

module _ {R : Type 0} (get_config : Text → Exec R (Option PipelineConfig)) where
  -- Redis after some lookups of configurations, and after nothing else of this process.
  pub data Looked (r : R) : R → Type 0 where
    same : Looked r r
    looks : (pid : Text) (r' : R) → Looked r r' → Looked r (get_config pid r').1

  -- A topic's configuration: the one that the cache has for the topic, or the one that Redis gives,
  -- after some lookups, for the pipeline id in the topic's name.
  pub data Found (cache : Dict PipelineConfig) (r : R) (topic : Text) (config : PipelineConfig)
      : Type 0 where
    cached : lookup topic cache ≡ some config → Found cache r topic config
    in_redis :
        (pid : Text) (r' : R)
        → topic_pipeline_id topic ≡ some pid
        → Looked r r'
        → (get_config pid r').0 ≡ ok (some config)
        → Found cache r topic config

  cached_entry :
      (cache : Dict PipelineConfig) (r : R) (topic other : Text) (config c : PipelineConfig)
      (old : Option PipelineConfig) (b : Bool)
      → text_eq topic other ≡ b
      → Found cache r topic config
      → (old ≡ some c → Found cache r other c)
      → (if b then some config else old) ≡ some c
      → Found cache r other c
  cached_entry cache r topic other config c old true e f g h =
      let same_topic : topic ≡ other = (text_eq_iff topic other).0 e in
      let same_config : config ≡ c = cc in
      subst (λ t. Found cache r t c) same_topic (subst (Found cache r topic) same_config f)
  cached_entry cache r topic other config c old false e f g h = g h

  module _ {C K : Type 0} (cache : Dict PipelineConfig) (r : R) where
    -- Every configuration in the cache of the state is one that was found.
    pub record Sound (s : Pool C R K) : Type 0 where
      pub entries :
          (topic : Text) (config : PipelineConfig)
          → lookup topic s.cache ≡ some config
          → Found cache r topic config
      pub looked : Looked r s.redis

    -- A lookup leaves a sound state, and what it returns was found.
    pub record Gives (topic : Text) (out : Result (Option PipelineConfig) × Pool C R K)
        : Type 0 where
      pub sound : Sound out.1
      pub found : (config : PipelineConfig) → out.0 ≡ ok (some config) → Found cache r topic config

    remember-Gives :
        (topic : Text) (found : Option PipelineConfig) (s : Pool C R K)
        → Sound s
        → ((config : PipelineConfig) → found ≡ some config → Found cache r topic config)
        → Gives topic (remember get_config topic found s)
    remember-Gives topic none s h f = record { sound = h; found = λ config e. cc }
    remember-Gives topic (some config) s h f = record {
      sound = record {
        entries = λ other c e.
            cached_entry cache r topic other config c (lookup other s.cache) (text_eq topic other)
              refl (f config refl) (h.entries other c)
              (sym (lookup-insert topic other config s.cache) ∙ e);
        looked = h.looked;
      };
      found = λ c e. f c cc;
    }

    fetched-Gives :
        (topic : Text) (s : Pool C R K) (out : Result (Option PipelineConfig) × R)
        → Sound (record s { redis = out.1 })
        → ((config : PipelineConfig) → out.0 ≡ ok (some config) → Found cache r topic config)
        → Gives topic (Consumer.fetched get_config topic s out)
    fetched-Gives topic s (ok found, r') h f =
        remember-Gives topic found (record s { redis = r' }) h (λ config e. f config cc)
    fetched-Gives topic s (err x, r') h f = record { sound = h; found = λ config e. cc }

    on_miss-Gives :
        (topic : Text) (pid : Option Text) (s : Pool C R K)
        → topic_pipeline_id topic ≡ pid
        → Sound s
        → Gives topic (on_miss get_config topic pid s)
    on_miss-Gives topic none s e h = record { sound = h; found = λ config q. cc }
    on_miss-Gives topic (some pid) s e h =
        fetched-Gives topic s (get_config pid s.redis)
          (record { entries = h.entries; looked = looks pid s.redis h.looked })
          (λ config q. in_redis pid s.redis e h.looked q)

    on_cache-Gives :
        (topic : Text) (found : Option PipelineConfig) (s : Pool C R K)
        → lookup topic s.cache ≡ found
        → Sound s
        → Gives topic (on_cache get_config topic found s)
    on_cache-Gives topic none s e h = on_miss-Gives topic (topic_pipeline_id topic) s refl h
    on_cache-Gives topic (some config) s e h = record {
      sound = h;
      found = λ c q. h.entries topic c (e ∙ cc);
    }

    -- `get` of the registry keeps a sound state, and returns a configuration that was found.
    pub registry_get-Gives :
        (topic : Text) (s : Pool C R K) → Sound s → Gives topic (registry_get get_config topic s)
    unfolding registry_get
    registry_get-Gives topic s h = on_cache-Gives topic (lookup topic s.cache) s refl h

  module _ {C K : Type 0} where
    remember_sink :
        (topic : Text) (found : Option PipelineConfig) (s : Pool C R K)
        → (remember get_config topic found s).1.sink ≡ s.sink
    remember_sink topic none s = refl
    remember_sink topic (some config) s = refl

    fetched_sink :
        (topic : Text) (s : Pool C R K) (r : Result (Option PipelineConfig) × R)
        → (Consumer.fetched get_config topic s r).1.sink ≡ s.sink
    fetched_sink topic s (ok found, r) = remember_sink topic found (record s { redis = r })
    fetched_sink topic s (err e, r) = refl

    on_miss_sink :
        (topic : Text) (pid : Option Text) (s : Pool C R K)
        → (on_miss get_config topic pid s).1.sink ≡ s.sink
    on_miss_sink topic none s = refl
    on_miss_sink topic (some pid) s = fetched_sink topic s (get_config pid s.redis)

    on_cache_sink :
        (topic : Text) (found : Option PipelineConfig) (s : Pool C R K)
        → (on_cache get_config topic found s).1.sink ≡ s.sink
    on_cache_sink topic (some config) s = refl
    on_cache_sink topic none s = on_miss_sink topic (topic_pipeline_id topic) s

    -- `get` of the registry leaves the sink as it is.
    pub registry_get-sink :
        (topic : Text) (s : Pool C R K) → (registry_get get_config topic s).1.sink ≡ s.sink
    unfolding registry_get
    registry_get-sink topic s = on_cache_sink topic (lookup topic s.cache) s
