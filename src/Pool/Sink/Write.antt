-- ===== src/Pool/Sink/Write.antt =====
-- `ClickHouseSink.write` and the calls below it.
use live_streaming_data_pipe.Base.{
  ℕ, zero, suc, Text, codes, Bool, true, false, Option, none, some, List, [], ◌∷◌, ◌++◌, map,
  length, take, ltb, if◌then◌else◌, text_eq,
}
use live_streaming_data_pipe.Base.Int.{pos}
use live_streaming_data_pipe.Base.Dict.{Dict, keys, insert}
use live_streaming_data_pipe.Base.Exec.{
  Exc, ExcKind, record_error, Result, ok, err, Exec, pure, lift, continue, ◌>>=◌, ◌>>◌,
}
use live_streaming_data_pipe.Json.{int, str, Py}
use live_streaming_data_pipe.Model.{PipelineConfig}
use live_streaming_data_pipe.Schema.{dlq_table}
use live_streaming_data_pipe.Pool.ClickHouse.{ClickHouse}
use live_streaming_data_pipe.Pool.Rows.{Cell, json, instant, succeeded}
use live_streaming_data_pipe.Pool.ToRow.{to_row, reads_clock, select}
use live_streaming_data_pipe.Pool.Sink.State.{
  IncomingRecord, WriteResult, Metrics, Sink, inc, run, now, ensure_table,
}

abbrev pub Dead : Type 0
Dead = IncomingRecord × Text

-- `keep` and `rows` of `write`, item by item, and `dead`.
pub record Mapping : Type 0 where
  pub kept : List (IncomingRecord × List Cell)
  pub dead : List Dead

-- `keep`
abbrev pub records_of : List (IncomingRecord × List Cell) → List IncomingRecord
records_of [] = []
records_of ((r, cells) ∷ l) = r ∷ records_of l

-- `rows`
abbrev pub rows_of : List (IncomingRecord × List Cell) → List (List Cell)
rows_of [] = []
rows_of ((r, cells) ∷ l) = cells ∷ rows_of l

abbrev pub is_record_error : ExcKind → Bool
is_record_error record_error = true
is_record_error _ = false

abbrev pub add_kept : IncomingRecord → List Cell → Mapping → Mapping
add_kept r cells m = record m { kept = (r, cells) ∷ m.kept }

abbrev pub add_dead : IncomingRecord → Text → Mapping → Mapping
add_dead r reason m = record m { dead = (r, reason) ∷ m.dead }

module _ (py : Py) (ch : ClickHouse) (config : PipelineConfig) where
  open ch use {World}

  -- a reading of the clock, if it is taken
  abbrev pub clock_if : Bool → Sink World → ℕ × Sink World
  clock_if true s =
      let (t, w) = ch.now s.manager.world in
      (t, record s { manager = record s.manager { world = w } })
  clock_if false s = (0, s)

  -- `to_row(record.value, config)`, with the clock readings that it comes to: that of `_event_time`, and
  -- that of `ingested_at`, after which nothing fails.
  unfoldable pub map_row : IncomingRecord → Exec (Sink World) (Dict Cell)
  unfolding to_row reads_clock
  map_row r s =
      let (checked, s1) = clock_if (reads_clock py r.value) s in
      let (ingested, s2) = clock_if (succeeded (to_row py r.value config checked 0)) s1 in
      (to_row py r.value config checked ingested, s2)

  -- The loop body of `write` for one record, before the other records: `except RecordError`.
  abbrev pub sort_row :
      IncomingRecord → Exec (Sink World) Mapping → Result (Dict Cell) → Exec (Sink World) Mapping
  sort_row r rest (ok row) s =
      continue (select (keys config.table_schema) row)
        (λ cells. rest >>= λ m. pure (add_kept r cells m)) s
  sort_row r rest (err e) s =
      if is_record_error e.kind
      then (rest >>= λ m. pure (add_dead r (codes "map: " ++ e.message) m)) s
      else (err e, s)

  unfoldable pub map_records : List IncomingRecord → Exec (Sink World) Mapping
  unfolding map_row select
  map_records [] s = (ok (record { kept = []; dead = [] }), s)
  map_records (r ∷ rs) s = let (row, s') = map_row r s in sort_row r (map_records rs) row s'

module _ (py : Py) (ch : ClickHouse) (database : Text) where
  open ch use {World}

  -- `f"{self._database}.{table}"`
  abbrev pub qualified : Text → Text
  qualified table = database ++ (codes "." ++ table)

  -- `_insert`
  unfoldable pub insert_rows :
      Text → PipelineConfig → List (List Cell) → Exec (Sink World) (Unit {0})
  unfolding run
  insert_rows table config rows =
      run ch (ch.insert (qualified table) (keys config.table_schema) rows)

  -- `f"insert: {type(exc).__name__}: {exc}"`
  abbrev pub insert_reason : Exc → Text
  insert_reason e = codes "insert: " ++ (e.name ++ (codes ": " ++ e.message))

  -- the `try` body of `_insert_individually`
  unfoldable pub insert_one : Text → PipelineConfig → IncomingRecord → Exec (Sink World) (Unit {0})
  unfolding map_row insert_rows select
  insert_one table config r = do
    row ← map_row py ch config r
    cells ← lift (select (keys config.table_schema) row)
    insert_rows table config (cells ∷ [])

  abbrev pub count_one : IncomingRecord → Result (Unit {0}) → ℕ × List Dead → ℕ × List Dead
  count_one r (ok u) (written, failed) = (suc written, failed)
  count_one r (err e) (written, failed) = (written, (r, insert_reason e) ∷ failed)

  -- It raises nothing: every exception is caught.
  unfoldable pub insert_individually :
      Text → PipelineConfig → List IncomingRecord → Sink World → (ℕ × List Dead) × Sink World
  unfolding insert_one
  insert_individually table config [] s = ((0, []), s)
  insert_individually table config (r ∷ rs) s =
      let (done, s') = insert_one table config r s in
      let (rest, s'') = insert_individually table config rs s' in (count_one r done rest, s'')

  -- `if rows:` with its `except Exception`, on how the batch insert ended
  abbrev pub isolate :
      Text
      → PipelineConfig
      → List (IncomingRecord × List Cell)
      → Result (Unit {0})
      → Sink World
      → (ℕ × List Dead) × Sink World
  isolate table config kept (ok u) s = ((length (rows_of kept), []), s)
  isolate table config kept (err e) s = insert_individually table config (records_of kept) s

  unfoldable pub insert_batch :
      Text
      → PipelineConfig
      → List (IncomingRecord × List Cell)
      → Sink World
      → (ℕ × List Dead) × Sink World
  unfolding insert_rows insert_individually
  insert_batch table config [] s = ((0, []), s)
  insert_batch table config kept s =
      let (done, s') = insert_rows table config (rows_of kept) s in
      isolate table config kept done s'

  -- a row of the dead-letter table
  unfoldable pub dlq_row : Text → PipelineConfig → Dead → List Cell
  unfolding take
  dlq_row table config (r, reason) =
      json (str config.pipeline_id)
      ∷ json (str r.topic)
      ∷ json (int (pos r.partition))
      ∷ json (int (pos r.offset))
      ∷ json (str table)
      ∷ json (str (take 2000 reason))
      ∷ json (str (take 64_000 r.raw))
      ∷ []

  -- `_DLQ_COLUMNS`
  abbrev pub dlq_columns : List Text
  dlq_columns =
      codes "pipeline_id"
      ∷ codes "topic"
      ∷ codes "partition"
      ∷ codes "offset"
      ∷ codes "target_table"
      ∷ codes "error_message"
      ∷ codes "payload"
      ∷ []

  abbrev pub count_dead : PipelineConfig → ℕ → Exec (Sink World) (Unit {0})
  count_dead config n s = (
    ok tt,
    record s {
      metrics = record s.metrics {
        dlq_rows_total = inc config.pipeline_id n s.metrics.dlq_rows_total;
      };
    },
  )

  -- `_dead_letter`
  unfoldable pub dead_letter : Text → PipelineConfig → List Dead → Exec (Sink World) (Unit {0})
  unfolding run dlq_row inc
  dead_letter table config dead = do
    run ch (ch.insert (qualified dlq_table) dlq_columns (map (dlq_row table config) dead))
    count_dead config (length dead)

  -- `if dead:`
  unfoldable pub dead_letter_any : Text → PipelineConfig → List Dead → Exec (Sink World) (Unit {0})
  unfolding dead_letter
  dead_letter_any table config [] = pure tt
  dead_letter_any table config (d ∷ dead) = dead_letter table config (d ∷ dead)

  -- the newest instant among the cells of one column; a cell of another type is passed over
  abbrev pub newer : Option ℕ → Option Cell → Option ℕ
  newer none (some (instant t)) = some t
  newer (some u) (some (instant t)) = some (if ltb u t then t else u)
  newer best _ = best

  abbrev pub get_elem? : List Cell → ℕ → Option Cell
  get_elem? [] i = none
  get_elem? (c ∷ cs) zero = some c
  get_elem? (c ∷ cs) (suc i) = get_elem? cs i

  unfoldable pub newest : ℕ → List (List Cell) → Option ℕ → Option ℕ
  newest index [] best = best
  newest index (row ∷ rows) best = newest index rows (newer best (get_elem? row index))

  abbrev pub add_one : Option ℕ → Option ℕ
  add_one none = none
  add_one (some i) = some (suc i)

  -- `columns.index(c)`; `none` where it is not there
  unfoldable pub index_of : Text → List Text → Option ℕ
  index_of c [] = none
  index_of c (k ∷ ks) = if text_eq k c then some 0 else add_one (index_of c ks)

  abbrev pub set_event : Text → Option ℕ → Metrics → Metrics
  set_event pid none m = m
  set_event pid (some t) m = record m { last_event = insert pid t m.last_event }

  abbrev pub newest_at : Option ℕ → List (List Cell) → Option ℕ
  newest_at none rows = none
  newest_at (some i) rows = newest i rows none

  abbrev pub set_write : PipelineConfig → Result ℕ → Dict ℕ → Dict ℕ
  set_write config (ok t) d = insert config.pipeline_id t d
  set_write config (err e) d = d

  -- `_record_freshness`
  unfoldable pub record_freshness : PipelineConfig → List (List Cell) → Exec (Sink World) (Unit {0})
  unfolding now newest index_of insert
  record_freshness config rows s =
      let (t, s') = now ch s in
      let at = index_of (codes "event_time") (keys config.table_schema) in
      (
        ok tt,
        record s' {
          metrics =
              set_event config.pipeline_id (newest_at at rows)
                (record s'.metrics { last_write = set_write config t s'.metrics.last_write });
        },
      )

  abbrev pub count_written : PipelineConfig → ℕ → Exec (Sink World) (Unit {0})
  count_written config n s = (
    ok tt,
    record s {
      metrics = record s.metrics {
        rows_written_total = inc config.pipeline_id n s.metrics.rows_written_total;
      };
    },
  )

  -- `if result.written:`
  unfoldable pub publish : PipelineConfig → ℕ → List (List Cell) → Exec (Sink World) (Unit {0})
  unfolding record_freshness inc
  publish config zero rows = pure tt
  publish config (suc n) rows = do count_written config (suc n); record_freshness config rows

  -- `[reason for _, reason in dead[:5]]`
  abbrev pub reasons : List Dead → List Text
  reasons [] = []
  reasons ((r, reason) ∷ dead) = reason ∷ reasons dead

  abbrev pub finish :
      Text
      → PipelineConfig
      → Mapping
      → (ℕ × List Dead) × Sink World
      → Result WriteResult × Sink World
  finish table config m ((written, isolated), s) =
      let dead = m.dead ++ isolated in
      (do
        dead_letter_any table config dead
        publish config written (rows_of m.kept)
        pure (record {
          written = written;
          dead_lettered = length dead;
          errors = reasons (take 5 dead);
        }))
        s

  unfoldable pub write : PipelineConfig → List IncomingRecord → Exec (Sink World) WriteResult
  unfolding ensure_table map_records insert_batch dead_letter_any publish take
  write config records = do
    table ← ensure_table ch database config
    m ← map_records py ch config records
    λ s. finish table config m (insert_batch table config m.kept s)
