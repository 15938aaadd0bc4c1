-- ===== src/Watcher/Keyed.antt =====
-- On `create_pipeline` and `get_config` of redis_repo.py: the key of a configuration.
use live_streaming_data_pipe.Base.{
  ◌≡◌, ◌≢◌, refl, Text, text_eq_refl, text_eq-eq_false, Option, none, some, [], ◌∷◌,
}
use live_streaming_data_pipe.Base.Exec.{Result, ok, err, continue}
use live_streaming_data_pipe.Model.{PipelineConfig}
use live_streaming_data_pipe.Repo.Keys.{
  pipeline_config_key, pipeline_state_key, pipeline_state_key-ne-config_key,
}
use live_streaming_data_pipe.Repo.Redis.{Redis}
use live_streaming_data_pipe.Repo.Store.{
  read, present, unless_found, store_new, get_config, create_pipeline,
}

module _ (rd : Redis) where
  open rd use {World}

  -- Redis holds a configuration under the pipeline's key.
  abbrev pub Keyed : Text → World → Type 0
  Keyed pid w = rd.get (pipeline_config_key pid) w ≢ none

  store_new-Keyed : (c : PipelineConfig) (w : World) → Keyed c.pipeline_id (store_new rd c w).1
  store_new-Keyed c w h =
      let (now, w') = rd.utc_now_iso w in
      let ck = pipeline_config_key c.pipeline_id in
      let sk = pipeline_state_key c.pipeline_id in
      let apart =
        text_eq-eq_false sk ck (pipeline_state_key-ne-config_key c.pipeline_id c.pipeline_id) in
      cc (
        rd.get-set sk ck _ (rd.set ck (rd.dump_config c) w'),
        rd.get-set ck ck (rd.dump_config c) w',
        apart,
        text_eq_refl ck,
        h,
      )

  -- What `create_pipeline` does on a configuration that is read, by what the key holds.
  found-Keyed :
      (c : PipelineConfig) (w : World) (o : Option Text)
      → rd.get (pipeline_config_key c.pipeline_id) w ≡ o
      → Keyed c.pipeline_id (continue (read rd.load_config o) (unless_found rd c) w).1
  found-Keyed c w none e = store_new-Keyed c w
  found-Keyed c w (some []) e = store_new-Keyed c w
  found-Keyed c w (some (d ∷ s)) e = loaded (rd.load_config (d ∷ s))
    where
      loaded :
          (r : Result PipelineConfig)
          → Keyed c.pipeline_id (continue (present r) (unless_found rd c) w).1
      loaded (ok old) h = cc
      loaded (err x) h = cc

  -- After `create_pipeline`, done or refused, the key is there.
  pub create_pipeline-Keyed :
      (c : PipelineConfig) (w : World) → Keyed c.pipeline_id (create_pipeline rd c w).1
  unfolding create_pipeline get_config
  create_pipeline-Keyed c w = found-Keyed c w (rd.get (pipeline_config_key c.pipeline_id) w) refl

  read-Keyed :
      (pid : Text) (w : World) (o : Option Text) (c : PipelineConfig)
      → rd.get (pipeline_config_key pid) w ≡ o
      → read rd.load_config o ≡ ok (some c)
      → Keyed pid w
  read-Keyed pid w none c e q h = cc
  read-Keyed pid w (some []) c e q h = cc
  read-Keyed pid w (some (d ∷ s)) c e q h = cc

  pub get_config-Keyed :
      (pid : Text) (w : World) (c : PipelineConfig)
      → (get_config rd pid w).0 ≡ ok (some c)
      → Keyed pid w
  unfolding get_config
  get_config-Keyed pid w c q = read-Keyed pid w (rd.get (pipeline_config_key pid) w) c refl q
