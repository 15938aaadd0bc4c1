-- ===== src/Pool/Consumer.antt =====
-- services/consumer_pool/app/main.py: the registry, and `_insert_then_commit` on one batch.
use live_streaming_data_pipe.Base.{
  ℕ, ◌+◌, Text, codes, text_eq, Bool, true, false, Option, none, some, List, [], ◌∷◌, ◌&&◌, ◌==◌,
  ◌≡◌, ◌⊎◌, In, if◌then◌else◌,
}
use live_streaming_data_pipe.Base.Dict.{Dict, lookup, insert}
use live_streaming_data_pipe.Base.Exec.{Exc, other, Result, ok, err, Exec}
use live_streaming_data_pipe.Json.{Value, str, Loaded, parsed, decode_error, failed, Py}
use live_streaming_data_pipe.Model.{PipelineConfig}
use live_streaming_data_pipe.Pool.Topic.{topic_pipeline_id}
use live_streaming_data_pipe.Pool.Sink.State.{IncomingRecord, Sink}

-- `TopicPartition`
pub record Partition : Type 0 where
  pub topic : Text
  pub number : ℕ

-- A Kafka record. `value` is what `message.value.decode(errors="replace")` gives, or none for a record
-- with no value, on which the call raises.
pub record Message : Type 0 where
  pub offset : ℕ
  pub value : Option Text

abbrev pub Batch : Type 0
Batch = List (Partition × List Message)

abbrev pub Offsets : Type 0
Offsets = List (Partition × ℕ)

-- What the pool relies on of the Kafka client (the package `aiokafka`): the consumer's committed offsets.
pub record Kafka : Type 1 where
  pub World : Type 0
  pub commit : Offsets → Exec World (Unit {0})
  pub committed : Partition → World → ℕ
  -- A commit, failing or not, leaves each partition where it was or puts it where the call says.
  pub commit_moves :
      (offsets : Offsets) (p : Partition) (w : World)
      → (committed p (commit offsets w).1 ≡ committed p w)
        ⊎ In (p, committed p (commit offsets w).1) offsets

-- The pool's state: the sink, the registry's cache, and the worlds of Redis and Kafka.
pub record Pool (C R K : Type 0) : Type 0 where
  pub sink : Sink C
  pub cache : Dict PipelineConfig
  pub redis : R
  pub kafka : K

unfoldable pub is_partition : Partition → Partition → Bool
is_partition p q = text_eq p.topic q.topic && p.number == q.number

-- `partition in assigned`
unfoldable pub is_assigned : Partition → List Partition → Bool
unfolding is_partition
is_assigned p [] = false
is_assigned p (q ∷ qs) = if is_partition p q then true else is_assigned p qs

-- `messages[-1].offset + 1`; an empty list raises.
unfoldable pub next_offset : List Message → Option ℕ
next_offset [] = none
next_offset (m ∷ []) = some (m.offset + 1)
next_offset (m ∷ n ∷ ms) = next_offset (n ∷ ms)

abbrev pub no_value : Exc
no_value = record {
  kind = other;
  name = codes "AttributeError";
  message = codes "'NoneType' object has no attribute 'decode'";
}

abbrev pub no_messages : Exc
no_messages = record {
  kind = other;
  name = codes "IndexError";
  message = codes "list index out of range";
}

module _ (py : Py) where
  abbrev pub incoming : Partition → Message → Text → Value → IncomingRecord
  incoming p m raw v = record {
    value = v;
    topic = p.topic;
    partition = p.number;
    offset = m.offset;
    raw = raw;
  }

  -- the `try` around `json.loads(raw)`
  abbrev pub decoded : Partition → Message → Text → Loaded → Result IncomingRecord
  decoded p m raw (parsed v) = ok (incoming p m raw v)
  decoded p m raw decode_error = ok (incoming p m raw (str raw))
  decoded p m raw (failed e) = err e

  abbrev pub with_text : Partition → Message → Option Text → Result IncomingRecord
  with_text p m none = err no_value
  with_text p m (some raw) = decoded p m raw (py.loads raw)

  abbrev pub cons_ok :
      Result IncomingRecord → Result (List IncomingRecord) → Result (List IncomingRecord)
  cons_ok (ok r) (ok rs) = ok (r ∷ rs)
  cons_ok (ok r) (err e) = err e
  cons_ok (err e) rs = err e

  -- the loop that fills `records`
  unfoldable pub records_of : Partition → List Message → Result (List IncomingRecord)
  records_of p [] = ok []
  records_of p (m ∷ ms) = cons_ok (with_text p m m.value) (records_of p ms)

module _ {C R K : Type 0} (get_config : Text → Exec R (Option PipelineConfig)) where
  abbrev pub remember : Text → Option PipelineConfig → Exec (Pool C R K) (Option PipelineConfig)
  remember topic none s = (ok none, s)
  remember topic (some config) s =
      (ok (some config), record s { cache = insert topic config s.cache })

  abbrev pub fetched :
      Text
      → Pool C R K
      → Result (Option PipelineConfig) × R
      → Result (Option PipelineConfig) × Pool C R K
  fetched topic s (ok found, r) = remember topic found (record s { redis = r })
  fetched topic s (err e, r) = (err e, record s { redis = r })

  abbrev pub on_miss : Text → Option Text → Exec (Pool C R K) (Option PipelineConfig)
  on_miss topic none s = (ok none, s)
  on_miss topic (some pid) s = fetched topic s (get_config pid s.redis)

  abbrev pub on_cache : Text → Option PipelineConfig → Exec (Pool C R K) (Option PipelineConfig)
  on_cache topic (some config) s = (ok (some config), s)
  on_cache topic none s = on_miss topic (topic_pipeline_id topic) s

  -- `PipelineRegistry.get`
  unfoldable pub registry_get : Text → Exec (Pool C R K) (Option PipelineConfig)
  unfolding lookup topic_pipeline_id insert
  registry_get topic s = on_cache topic (lookup topic s.cache) s
