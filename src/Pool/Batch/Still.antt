-- ===== src/Pool/Batch/Still.antt =====
-- On the loop of `_insert_then_commit` in services/consumer_pool/app/main.py, and Kafka.
use live_streaming_data_pipe.Base.{
  ℕ, ◌≡◌, refl, ◌∙◌, Text, Bool, true, false, Option, none, some, List, [], ◌∷◌, ◌++◌,
}
use live_streaming_data_pipe.Base.Exec.{Result, ok, err, Exec}
use live_streaming_data_pipe.Json.{Py}
use live_streaming_data_pipe.Model.{PipelineConfig}
use live_streaming_data_pipe.Pool.ClickHouse.{ClickHouse}
use live_streaming_data_pipe.Pool.Sink.State.{IncomingRecord, WriteResult}
use live_streaming_data_pipe.Pool.Topic.{topic_pipeline_id}
use live_streaming_data_pipe.Base.Dict.{lookup}
use live_streaming_data_pipe.Pool.Consumer
use live_streaming_data_pipe.Pool.Consumer.{
  Partition, Message, Batch, Offsets, Kafka, Pool, is_assigned, remember, on_miss, on_cache,
  next_offset, records_of, registry_get,
}
use live_streaming_data_pipe.Pool.Batch.{
  State, sink_write, record_offset, after_write, with_records, with_config, if_assigned, insert_all,
}

module _ (py : Py) (ch : ClickHouse) (database : Text) (kf : Kafka) {R : Type 0}
    (get_config : Text → Exec R (Option PipelineConfig)) (assigned : List Partition) where
  abbrev S : Type 0
  S = State py ch database kf get_config

  abbrev pub Still : (Offsets → Exec S Offsets) → Type 0
  Still again = (offsets : Offsets) (s : S) → (again offsets s).1.kafka ≡ s.kafka

  fetched-kafka :
      (topic : Text) (s : S) (r : Result (Option PipelineConfig) × R)
      → (Consumer.fetched get_config topic s r).1.kafka ≡ s.kafka
  fetched-kafka topic s (ok none, r) = refl
  fetched-kafka topic s (ok (some config), r) = refl
  fetched-kafka topic s (err e, r) = refl

  on_miss-kafka :
      (topic : Text) (pid : Option Text) (s : S)
      → (on_miss get_config topic pid s).1.kafka ≡ s.kafka
  on_miss-kafka topic none s = refl
  on_miss-kafka topic (some pid) s = fetched-kafka topic s (get_config pid s.redis)

  on_cache-kafka :
      (topic : Text) (found : Option PipelineConfig) (s : S)
      → (on_cache get_config topic found s).1.kafka ≡ s.kafka
  on_cache-kafka topic (some config) s = refl
  on_cache-kafka topic none s = on_miss-kafka topic (topic_pipeline_id topic) s

  registry_get-kafka : (topic : Text) (s : S) → (registry_get get_config topic s).1.kafka ≡ s.kafka
  unfolding registry_get
  registry_get-kafka topic s = on_cache-kafka topic (lookup topic s.cache) s

  module _ (p : Partition) (messages : List Message) (again : Offsets → Exec S Offsets)
      (still : Still again) (offsets : Offsets) where
    after_write-kafka :
        (r : Result WriteResult) (s : S)
        → (after_write py ch database kf get_config p messages again offsets (r, s)).1.kafka
          ≡ s.kafka
    after_write-kafka (ok result) s = go (next_offset messages)
      where
        go :
            (o : Option ℕ)
            → (record_offset py ch database kf get_config p o again offsets s).1.kafka ≡ s.kafka
        go none = refl
        go (some n) = still (offsets ++ (p, n) ∷ []) s
    after_write-kafka (err e) s = refl

    with_records-kafka :
        (config : PipelineConfig) (r : Result (List IncomingRecord)) (s : S)
        → (with_records py ch database kf get_config config p messages again offsets r s).1.kafka
          ≡ s.kafka
    unfolding sink_write
    with_records-kafka config (ok records) s =
        let out : Result WriteResult × S =
          sink_write py ch database kf get_config config records s in
        after_write-kafka out.0 out.1
    with_records-kafka config (err e) s = refl

    with_config-kafka :
        (r : Result (Option PipelineConfig)) (s : S)
        → (with_config py ch database kf get_config p messages again offsets (r, s)).1.kafka
          ≡ s.kafka
    with_config-kafka (ok none) s = still offsets s
    with_config-kafka (ok (some config)) s = with_records-kafka config (records_of py p messages) s
    with_config-kafka (err e) s = refl

  if_assigned-kafka :
      (b : Bool) (p : Partition) (messages : List Message) (again : Offsets → Exec S Offsets)
      → Still again
      → (offsets : Offsets) (s : S)
      → (if_assigned py ch database kf get_config b p messages again offsets s).1.kafka ≡ s.kafka
  if_assigned-kafka false p messages again still offsets s = still offsets s
  if_assigned-kafka true p messages again still offsets s =
      with_config-kafka p messages again still offsets (registry_get get_config p.topic s).0
        (registry_get get_config p.topic s).1
      ∙ registry_get-kafka p.topic s

  pub insert_all-kafka :
      (rest : Batch) → Still (insert_all py ch database kf get_config assigned rest)
  unfolding insert_all
  insert_all-kafka [] offsets s = refl
  insert_all-kafka ((p, messages) ∷ rest) offsets s =
      if_assigned-kafka (is_assigned p assigned) p messages
        (insert_all py ch database kf get_config assigned rest) (insert_all-kafka rest) offsets s
