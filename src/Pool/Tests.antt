-- ===== src/Pool/Tests.antt =====
-- Runs of the pool, and its theorems at concrete calls.
use live_streaming_data_pipe.Base.{
  ℕ, ◌+◌, ◌≤◌, ◌≡◌, ◌⊎◌, refl, Text, codes, true, false, Option, none, some, List, [], ◌∷◌, length,
}
use live_streaming_data_pipe.Base.Int.{pos}
use live_streaming_data_pipe.Base.Dict.{Dict, lookup, keys, Distinct}
use live_streaming_data_pipe.Base.Exec.{Exc, connection_error, Result, ok, err, Exec, ◌>>=◌}
use live_streaming_data_pipe.Json.{
  Value, null, bool, int, float, str, arr, obj, end, field, Fields, entries, Py,
}
use live_streaming_data_pipe.Model.{PipelineConfig}
use live_streaming_data_pipe.Naming.{ch_unique_identifier}
use live_streaming_data_pipe.Repo.Tests.{p1_config}
use live_streaming_data_pipe.Pool.Rows.{
  Cell, json, instant, earliest_plausible, future_tolerance, is_timestamp_error, check_plausible,
  event_time, dict_or_empty,
}
use live_streaming_data_pipe.Pool.ToRow.{to_row, select}
use live_streaming_data_pipe.Pool.ToRow.Schema.{to_row-columns, to_row-event_time}
use live_streaming_data_pipe.Pool.ToRow.Errors.{
  TimestampErrors, IsRecordError, Escapes, to_row_raises,
}
use live_streaming_data_pipe.Pool.Manager.{Manager, execute, max_retries, base_backoff}
use live_streaming_data_pipe.Pool.Manager.Retry.{Retried, execute-Retried}
use live_streaming_data_pipe.Pool.Sink.State.{IncomingRecord, WriteResult, Sink}
use live_streaming_data_pipe.Pool.Sink.Write.{write}
use live_streaming_data_pipe.Pool.Sink.Stored.{Written, write-Written}
use live_streaming_data_pipe.Pool.Topic.{
  before_events, strip_prefix, strip_suffix, no_newline, topic_pipeline_id, default_topic,
}
use live_streaming_data_pipe.Pool.Topic.RoundTrip.{topic_pipeline_id-default_topic}
use live_streaming_data_pipe.Pool.Consumer.{Partition, Batch}
use live_streaming_data_pipe.Pool.Batch.{State, insert_then_commit}
use live_streaming_data_pipe.Base.{inl, inr}
use live_streaming_data_pipe.Base.Exec.{record_error}
use live_streaming_data_pipe.Model.{table_of}
use live_streaming_data_pipe.Naming.{name}
use live_streaming_data_pipe.Pool.Sink.Returns.{Answers, Returns, write-Returns}
use live_streaming_data_pipe.Pool.Fixture.{kf, put_offsets, reading, t0, py, too_large, Rows, ch}

abbrev row : Dict Cell
row =
    (codes "event_time", instant t0)
    ∷ (codes "pipeline_id", json (str (codes "p1")))
    ∷ (codes "source", json (str []))
    ∷ (codes "sensor", json (str []))
    ∷ (codes "quality", json (str []))
    ∷ (codes "node_id", json (str []))
    ∷ (codes "sequence", json (int (pos 0)))
    ∷ (codes "value", json (float 21))
    ∷ (codes "value_text", json null)
    ∷ (codes "ingested_at", instant t0)
    ∷ []

reading_row : to_row py reading p1_config t0 t0 ≡ ok row
unfolding to_row check_plausible
reading_row = refl

schema_Distinct : Distinct p1_config.table_schema
unfolding lookup
schema_Distinct = (refl, (refl, (refl, (refl, (refl, (refl, (refl, (refl, (refl, (refl, tt))))))))))

to_row-columns_example :
    ((cells : List Cell) × (select (keys p1_config.table_schema) row ≡ ok cells)
      × (length cells ≡ length p1_config.table_schema))
    × ((c : Text) → lookup c p1_config.table_schema ≡ none → lookup c row ≡ none)
to_row-columns_example = to_row-columns py reading p1_config t0 t0 row schema_Distinct reading_row

event_time_declared :
    lookup (codes "event_time") p1_config.table_schema ≡ some (codes "DateTime64(3)")
unfolding lookup
event_time_declared = refl

to_row-event_time_example :
    (t : ℕ) × (lookup (codes "event_time") row ≡ some (instant t))
    × (earliest_plausible ≤ t)
    × (t ≤ t0 + future_tolerance)
to_row-event_time_example =
    to_row-event_time py reading p1_config t0 t0 row (codes "DateTime64(3)") schema_Distinct
      event_time_declared reading_row

topic_pipeline_id-default_topic_example :
    topic_pipeline_id (default_topic (codes "p1")) ≡ some (codes "p1")
unfolding no_newline
topic_pipeline_id-default_topic_example = topic_pipeline_id-default_topic b'p' (codes "1") refl

-- Two records: a reading, and a text that is no object.
abbrev records : List IncomingRecord
records =
    record {
      value = reading;
      topic = codes "pipeline.p1.events";
      partition = 0;
      offset = 7;
      raw = codes "{}";
    }
    ∷ record {
      value = str (codes "x");
      topic = codes "pipeline.p1.events";
      partition = 0;
      offset = 8;
      raw = codes "x";
    }
    ∷ []

abbrev sink : Sink Rows
sink = record {
  manager = record { client = false; slept = []; world = [] };
  known_tables = [];
  metrics = record {
    rows_written_total = [];
    dlq_rows_total = [];
    last_event = [];
    last_write = [];
  };
}

abbrev one_each : WriteResult
one_each = record {
  written = 1;
  dead_lettered = 1;
  errors = codes "map: expected a JSON object, got str" ∷ [];
}

records_written : (write py ch (codes "db") p1_config records sink).0 ≡ ok one_each
unfolding write keys check_plausible ch_unique_identifier ◌>>=◌
records_written = refl

write-Written_example :
    Written py ch
      (codes "db")
      p1_config
      records
      one_each
      (write py ch (codes "db") p1_config records sink).1.manager.world
write-Written_example =
    write-Written py ch (codes "db") p1_config records one_each sink records_written

-- A server that is never there: six retries.
abbrev refused_exc : Exc
refused_exc = record {
  kind = connection_error;
  name = codes "ConnectionRefusedError";
  message = codes "";
}

abbrev down : Exec (Unit {0}) (Unit {0})
down w = (err refused_exc, w)

abbrev unconnected : Manager (Unit {0})
unconnected = record { client = false; slept = []; world = tt }

execute-Retried_example :
    Retried down down max_retries base_backoff [] (execute down down unconnected)
execute-Retried_example = execute-Retried down down unconnected

-- A Python in which no integer fits a float, and a message with one.
abbrev narrow : Value → Result ℕ
narrow (int n) = err too_large
narrow _ = ok 21

abbrev narrow_py : Py
narrow_py = record py { to_float = narrow }

narrow_raises : (v : Value) (e : Exc) → narrow v ≡ err e → is_timestamp_error e.kind ≡ true
narrow_raises (int n) e h = cc
narrow_raises null e h = cc
narrow_raises (bool b) e h = cc
narrow_raises (float x) e h = cc
narrow_raises (str s) e h = cc
narrow_raises (arr vs) e h = cc
narrow_raises (obj fs) e h = cc

narrow_named : TimestampErrors narrow_py
narrow_named = record { to_float_raises = narrow_raises; from_timestamp_raises = λ x e h. cc }

abbrev wide_fields : Fields
wide_fields =
    field (codes "fields") (obj (field (codes "value") (int (pos 21)) end))
      (field (codes "timestamp") (str (codes "1000000000000")) end)

wide_time : event_time narrow_py (entries wide_fields) t0 ≡ ok t0
unfolding event_time entries check_plausible
wide_time = refl

wide_dicts :
    (dict_or_empty narrow_py (lookup (codes "tags") (entries wide_fields)) ≡ some [])
    × (dict_or_empty narrow_py (lookup (codes "fields") (entries wide_fields))
        ≡ some ((codes "value", int (pos 21)) ∷ []))
unfolding dict_or_empty lookup entries
wide_dicts = (refl, refl)

wide_value : lookup (codes "value") ((codes "value", int (pos 21)) ∷ []) ≡ some (int (pos 21))
unfolding lookup
wide_value = refl

wide_row : to_row narrow_py (obj wide_fields) p1_config t0 t0 ≡ err too_large
unfolding to_row check_plausible
wide_row = refl

to_row_raises_example :
    IsRecordError too_large
    ⊎ ((fs : Fields) × (obj wide_fields ≡ obj fs)
        × Escapes narrow_py narrow_named (entries fs) too_large)
to_row_raises_example =
    to_row_raises narrow_py narrow_named (obj wide_fields) p1_config t0 t0 too_large wide_row

-- Two messages of one topic, and a consumer to which its partition is assigned.
abbrev partition_0 : Partition
partition_0 = record { topic = codes "pipeline.p1.events"; number = 0 }

abbrev polled : Batch
polled =
    (
      partition_0,
      record { offset = 7; value = some (codes "{}") }
          ∷ record { offset = 8; value = some (codes "x") }
          ∷ [],
    )
    ∷ []

abbrev found : Text → Exec (Unit {0}) (Option PipelineConfig)
found pid r = (ok (some p1_config), r)

abbrev pool : State py ch (codes "db") kf found
pool = record { sink = sink; cache = []; redis = tt; kafka = λ p. 0 }

abbrev committed_pool : State py ch (codes "db") kf found
committed_pool = (insert_then_commit py ch (codes "db") kf found (partition_0 ∷ []) polled pool).1

-- The batch above is stored, and its offset is committed.
polled_commits : kf.committed partition_0 committed_pool.kafka ≡ 9
unfolding put_offsets insert_then_commit keys check_plausible ch_unique_identifier before_events
    strip_prefix strip_suffix no_newline ◌>>=◌
polled_commits = refl

-- Every number of this Python fits a float.
py_named : TimestampErrors py
py_named = record { to_float_raises = λ v e h. cc; from_timestamp_raises = λ x e h. cc }

no_escape : (message : Dict Value) (e : Exc) → Escapes py py_named message e → e.kind ≡ record_error
no_escape message e (fields, p, (v, q, r)) = cc

only_record_errors :
    (v : Value) (now ingested : ℕ) (e : Exc)
    → to_row py v p1_config now ingested ≡ err e
    → e.kind ≡ record_error
only_record_errors v now ingested e h =
    elim (to_row_raises py py_named v p1_config now ingested e h) [
      | inl k ↦ k
      | inr (fs, p, x) ↦ no_escape (entries fs) e x
    ]

ch-Answers : Answers ch
ch-Answers = record {
  connects = λ w. refl;
  commands = λ ddl w. refl;
  inserts = λ table columns rows w. refl;
}

p1_table : table_of p1_config ≡ name (codes "user_0_collection_1_events")
unfolding table_of ch_unique_identifier
p1_table = refl

write-Returns_example : Returns (write py ch (codes "db") p1_config records sink)
write-Returns_example =
    write-Returns py ch ch-Answers (codes "db") p1_config schema_Distinct
      (codes "user_0_collection_1_events") records sink p1_table
      (only_record_errors reading, (only_record_errors (str (codes "x")), tt))
