-- ===== src/Pool/Batch.antt =====
-- services/consumer_pool/app/main.py: `_insert_then_commit` on what one `getmany` returned.
pub mod Still
pub mod Registry
pub mod Commits
use live_streaming_data_pipe.Base.{
  ℕ, Text, Bool, true, false, Option, none, some, List, [], ◌∷◌, ◌++◌, if◌then◌else◌,
}
use live_streaming_data_pipe.Base.Exec.{
  Exc, ExcKind, commit_failed, illegal_state, Result, ok, err, Exec, pure, raise, lift, continue,
  ◌>>=◌,
}
use live_streaming_data_pipe.Json.{Py}
use live_streaming_data_pipe.Model.{PipelineConfig}
use live_streaming_data_pipe.Pool.ClickHouse.{ClickHouse}
use live_streaming_data_pipe.Pool.Sink.State.{IncomingRecord, WriteResult, Sink}
use live_streaming_data_pipe.Pool.Sink.Write.{write}
use live_streaming_data_pipe.Pool.Consumer.{
  Partition, Message, Batch, Offsets, Kafka, Pool, is_assigned, next_offset, no_messages,
  records_of, registry_get,
}

-- `except (CommitFailedError, IllegalStateError)`
abbrev pub is_rebalance : ExcKind → Bool
is_rebalance commit_failed = true
is_rebalance illegal_state = true
is_rebalance _ = false

module _ (py : Py) (ch : ClickHouse) (database : Text) (kf : Kafka) {R : Type 0}
    (get_config : Text → Exec R (Option PipelineConfig)) where
  abbrev pub State : Type 0
  State = Pool ch.World R kf.World

  -- `await sink.write(config, records)`
  unfoldable pub sink_write : PipelineConfig → List IncomingRecord → Exec State WriteResult
  unfolding write
  sink_write config records s =
      let (r, sink) = write py ch database config records s.sink in (r, record s { sink = sink })

  -- `offsets[partition] = messages[-1].offset + 1`, and on to the other partitions. The partitions of
  -- a batch differ, so the entry is new.
  abbrev pub record_offset :
      Partition → Option ℕ → (Offsets → Exec State Offsets) → Offsets → Exec State Offsets
  record_offset p none again offsets s = (err no_messages, s)
  record_offset p (some o) again offsets s = again (offsets ++ (p, o) ∷ []) s

  -- The `try` around `sink.write`: on an exception the loop is left with the offsets so far.
  abbrev pub after_write :
      Partition
      → List Message
      → (Offsets → Exec State Offsets)
      → Offsets
      → Result WriteResult × State
      → Result Offsets × State
  after_write p messages again offsets (ok result, s) =
      record_offset p (next_offset messages) again offsets s
  after_write p messages again offsets (err e, s) = (ok offsets, s)

  abbrev pub with_records :
      PipelineConfig
      → Partition
      → List Message
      → (Offsets → Exec State Offsets)
      → Offsets
      → Result (List IncomingRecord)
      → Exec State Offsets
  with_records config p messages again offsets (ok records) s =
      after_write p messages again offsets (sink_write config records s)
  with_records config p messages again offsets (err e) s = (err e, s)

  abbrev pub with_config :
      Partition
      → List Message
      → (Offsets → Exec State Offsets)
      → Offsets
      → Result (Option PipelineConfig) × State
      → Result Offsets × State
  with_config p messages again offsets (ok none, s) = again offsets s
  with_config p messages again offsets (ok (some config), s) =
      with_records config p messages again offsets (records_of py p messages) s
  with_config p messages again offsets (err e, s) = (err e, s)

  abbrev pub if_assigned :
      Bool
      → Partition
      → List Message
      → (Offsets → Exec State Offsets)
      → Offsets
      → Exec State Offsets
  if_assigned false p messages again offsets s = again offsets s
  if_assigned true p messages again offsets s =
      with_config p messages again offsets (registry_get get_config p.topic s)

  -- The loop over `batches.items()`.
  unfoldable pub insert_all : List Partition → Batch → Offsets → Exec State Offsets
  unfolding sink_write next_offset records_of registry_get is_assigned
  insert_all assigned [] offsets s = (ok offsets, s)
  insert_all assigned ((p, messages) ∷ rest) offsets s =
      if_assigned (is_assigned p assigned) p messages (insert_all assigned rest) offsets s

  -- `await consumer.commit(offsets)` with its handler
  abbrev pub after_commit : State → Result (Unit {0}) × kf.World → Result (Unit {0}) × State
  after_commit s (ok u, k) = (ok tt, record s { kafka = k })
  after_commit s (err e, k) = (if is_rebalance e.kind then ok tt else err e, record s { kafka = k })

  abbrev pub commit_offsets : Offsets → Exec State (Unit {0})
  commit_offsets [] s = (ok tt, s)
  commit_offsets (o ∷ offsets) s = after_commit s (kf.commit (o ∷ offsets) s.kafka)

  -- `_insert_then_commit`, and `_handle`, which holds the lock around it.
  unfoldable pub insert_then_commit : List Partition → Batch → Exec State (Unit {0})
  unfolding insert_all
  insert_then_commit assigned batches s =
      let (r, s') = insert_all assigned batches [] s in continue r commit_offsets s'
