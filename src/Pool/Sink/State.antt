-- ===== src/Pool/Sink/State.antt =====
-- The state of `ClickHouseSink` and its calls of the manager.
use live_streaming_data_pipe.Base.{
  ℕ, ◌+◌, Text, codes, text_eq, Bool, true, false, Option, none, some, List, [], ◌∷◌, if◌then◌else◌,
}
use live_streaming_data_pipe.Base.Dict.{Dict, lookup, insert}
use live_streaming_data_pipe.Base.Exec.{Exc, value_error, ok, err, Exec, ◌>>◌}
use live_streaming_data_pipe.Json.{Value}
use live_streaming_data_pipe.Model.{PipelineConfig, table_of}
use live_streaming_data_pipe.Naming.{Named, NamingError, name, refused}
use live_streaming_data_pipe.Schema.{create_database_ddl, create_table_ddl, create_dlq_table_ddl}
use live_streaming_data_pipe.Pool.ClickHouse.{ClickHouse}
use live_streaming_data_pipe.Pool.Manager.{Manager, execute}

-- `IncomingRecord`
pub record IncomingRecord : Type 0 where
  pub value : Value
  pub topic : Text
  pub partition : ℕ
  pub offset : ℕ
  pub raw : Text

-- `WriteResult`
pub record WriteResult : Type 0 where
  pub written : ℕ
  pub dead_lettered : ℕ
  pub errors : List Text

-- The counters and gauges of the module, by `pipeline_id`.
pub record Metrics : Type 0 where
  pub rows_written_total : Dict ℕ
  pub dlq_rows_total : Dict ℕ
  pub last_event : Dict ℕ
  pub last_write : Dict ℕ

pub record Sink (W : Type 0) : Type 0 where
  pub manager : Manager W
  pub known_tables : List Text
  pub metrics : Metrics

abbrev pub or_zero : Option ℕ → ℕ
or_zero none = 0
or_zero (some n) = n

-- `counter.labels(pipeline_id=k).inc(n)`
unfoldable pub inc : Text → ℕ → Dict ℕ → Dict ℕ
unfolding lookup insert
inc k n d = insert k (or_zero (lookup k d) + n) d

abbrev pub naming_exc : NamingError → Exc
naming_exc e = record {
  kind = value_error;
  name = codes "ValueError";
  message = codes "not a ClickHouse identifier";
}

unfoldable pub contains : Text → List Text → Bool
contains t [] = false
contains t (x ∷ xs) = if text_eq x t then true else contains t xs

module _ (ch : ClickHouse) where
  open ch use {World}

  -- `self._mgr.execute(lambda c: …)` on a call of the client
  unfoldable pub run : Exec World (Unit {0}) → Exec (Sink World) (Unit {0})
  unfolding execute
  run fn s = let (r, m) = execute ch.get_client fn s.manager in (r, record s { manager = m })

  -- a reading of the clock
  unfoldable pub now : Exec (Sink World) ℕ
  now s =
      let (t, w) = ch.now s.manager.world in
      (ok t, record s { manager = record s.manager { world = w } })

  module _ (database : Text) where
    unfoldable pub ensure_dlq_table : Exec (Sink World) (Unit {0})
    unfolding run create_database_ddl create_dlq_table_ddl
    ensure_dlq_table = do
      run (ch.command (create_database_ddl database))
      run (ch.command (create_dlq_table_ddl database))

    -- `self._known_tables.add(table)`
    abbrev pub remember : Text → Exec (Sink World) Text
    remember table s = (ok table, record s { known_tables = table ∷ s.known_tables })

    unfoldable pub create_unknown : PipelineConfig → Text → Exec (Sink World) Text
    unfolding run create_database_ddl create_table_ddl
    create_unknown config table = do
      run (ch.command (create_database_ddl database))
      run (ch.command (create_table_ddl database table config.table_schema))
      remember table

    unfoldable pub ensure_named : PipelineConfig → Named → Exec (Sink World) Text
    unfolding create_unknown contains
    ensure_named config (refused e) s = (err (naming_exc e), s)
    ensure_named config (name table) s =
        if contains table s.known_tables then (ok table, s) else create_unknown config table s

    unfoldable pub ensure_table : PipelineConfig → Exec (Sink World) Text
    unfolding ensure_named table_of
    ensure_table config = ensure_named config (table_of config)
