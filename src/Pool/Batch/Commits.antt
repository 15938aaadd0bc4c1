-- ===== src/Pool/Batch/Commits.antt =====
-- On `_insert_then_commit` of services/consumer_pool/app/main.py: what a committed offset stands for.
use live_streaming_data_pipe.Base.{ℕ, ◌≡◌, ◌⊎◌, Text, true, Option, some, List, All, In}
use live_streaming_data_pipe.Base.Exec.{Result, ok, Exec}
use live_streaming_data_pipe.Json.{Py}
use live_streaming_data_pipe.Model.{PipelineConfig, table_of}
use live_streaming_data_pipe.Naming.{name}
use live_streaming_data_pipe.Pool.ClickHouse.{ClickHouse}
use live_streaming_data_pipe.Pool.Sink.State.{IncomingRecord}
use live_streaming_data_pipe.Pool.Sink.Stored.{Accounted}
use live_streaming_data_pipe.Base.Dict.{Dict}
use live_streaming_data_pipe.Pool.Consumer.{
  Partition, Message, Batch, Offsets, Kafka, is_assigned, next_offset, records_of,
}
use live_streaming_data_pipe.Pool.Batch.{State}
use live_streaming_data_pipe.Pool.Batch.Registry.{Found, Sound}

module _ (py : Py) (ch : ClickHouse) (database : Text) (kf : Kafka) {R : Type 0}
    (get_config : Text → Exec R (Option PipelineConfig)) (assigned : List Partition)
    (batches : Batch) (cache : Dict PipelineConfig) (redis : R) where
  -- The entry `(p, o)` is one past the last message that the batch has for `p`, `p` is assigned, and
  -- each of those messages is in the table of the pipeline that was found for the topic, from this
  -- cache or in this Redis, or in the dead-letter table.
  pub record Backed (w : ch.World) (entry : Partition × ℕ) : Type 0 where
    pub messages : List Message
    pub fetched : In (entry.0, messages) batches
    pub is_ours : is_assigned entry.0 assigned ≡ true
    pub last : next_offset messages ≡ some entry.1
    pub config : PipelineConfig
    pub found : Found get_config cache redis entry.0.topic config
    pub table : Text
    pub named : table_of config ≡ name table
    pub records : List IncomingRecord
    pub decoded : records_of py entry.0 messages ≡ ok records
    pub stored : All (Accounted py ch database config table w) records

  abbrev S : Type 0
  S = State py ch database kf get_config

  abbrev world : S → ch.World
  world s = s.sink.manager.world

  abbrev IsSound : S → Type 0
  IsSound = Sound get_config cache redis

  -- Every offset that the loop returns is backed in the world that it leaves.
  abbrev Ok : Result Offsets × S → Type 0
  Ok r = (offsets : Offsets) → r.0 ≡ ok offsets → All (Backed (world r.1)) offsets

  abbrev Loop : (Offsets → Exec S Offsets) → Type 0
  Loop again =
      (offsets : Offsets) (s : S)
      → All (Backed (world s)) offsets
      → IsSound s
      → Ok (again offsets s)

  module _ (p : Partition) where
    -- What the theorem below says of the state `t` that the call leaves.
    abbrev Moved : kf.World → S → Type 0
    Moved k t =
        (kf.committed p t.kafka ≡ kf.committed p k) ⊎ Backed (world t) (p, kf.committed p t.kafka)
