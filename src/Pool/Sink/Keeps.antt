-- ===== src/Pool/Sink/Keeps.antt =====
-- On the calls of services/consumer_pool/app/sink.py: what they keep of the outside world.
use live_streaming_data_pipe.Base.{
  Bool, true, false, ℕ, zero, suc, Text, List, [], ◌∷◌, ◌++◌, Bool-cases, inl, inr, map,
}
use live_streaming_data_pipe.Base.Dict.{Dict, keys}
use live_streaming_data_pipe.Base.Exec.{Result, ok, err, Exec, lift, continue, ◌>>=◌}
use live_streaming_data_pipe.Json.{Py}
use live_streaming_data_pipe.Model.{PipelineConfig, table_of}
use live_streaming_data_pipe.Naming.{Named, name, refused}
use live_streaming_data_pipe.Schema.{create_database_ddl, create_table_ddl, dlq_table}
use live_streaming_data_pipe.Pool.ClickHouse.{ClickHouse}
use live_streaming_data_pipe.Pool.Rows.{Cell, succeeded}
use live_streaming_data_pipe.Pool.ToRow.{to_row, reads_clock, select}
use live_streaming_data_pipe.Pool.Manager.Outcome.{execute_keeps}
use live_streaming_data_pipe.Pool.Sink.State.{
  IncomingRecord, Sink, run, now, contains, create_unknown, ensure_named, ensure_table,
}
use live_streaming_data_pipe.Pool.Sink.Write.{
  Dead, Mapping, records_of, rows_of, clock_if, map_row, sort_row, map_records, is_record_error,
  insert_rows, insert_one, insert_individually, isolate, insert_batch, dead_letter, dead_letter_any,
  dlq_row, dlq_columns, publish, record_freshness, count_written, finish, write, qualified,
}

-- No call to the outside takes `P` away.
pub record Invariant (ch : ClickHouse) (P : ch.World → Type 0) : Type 0 where
  pub at_now : (w : ch.World) → P w → P (ch.now w).1
  pub at_client : (w : ch.World) → P w → P (ch.get_client w).1
  pub at_command : (ddl : Text) (w : ch.World) → P w → P (ch.command ddl w).1
  pub at_insert :
      (table : Text) (columns : List Text) (rows : List (List Cell)) (w : ch.World)
      → P w
      → P (ch.insert table columns rows w).1

-- A stored row stays.
pub Has-Invariant : (ch : ClickHouse) (t : Text) (r : List Cell) → Invariant ch (ch.Has t r)
Has-Invariant ch t r = record {
  at_now = ch.now_keeps t r;
  at_client = ch.get_client_keeps t r;
  at_command = λ ddl. ch.command_keeps ddl t r;
  at_insert = λ table columns rows. ch.insert_keeps table columns rows t r;
}

-- `m` keeps `P` of the world, whether it returns or raises.
pub record Keeps {W : Type 0} {A : Type 0} (P : W → Type 0) (m : Exec (Sink W) A) : Type 0 where
  pub at : (s : Sink W) → P s.manager.world → P (m s).1.manager.world

module _ {W : Type 0} {A B : Type 0} {P : W → Type 0} where
  pub Keeps-continue :
      (r : Result A) (f : A → Exec (Sink W) B) → ((a : A) → Keeps P (f a)) → Keeps P (continue r f)
  Keeps-continue (ok a) f k = record { at = (k a).at }
  Keeps-continue (err e) f k = record { at = λ s h. h }

  pub Keeps-bind :
      (m : Exec (Sink W) A) (f : A → Exec (Sink W) B)
      → Keeps P m
      → ((a : A) → Keeps P (f a))
      → Keeps P (m >>= f)
  unfolding ◌>>=◌
  Keeps-bind m f km kf = record { at = λ s h. (Keeps-continue (m s).0 f kf).at (m s).1 (km.at s h) }

module _ (ch : ClickHouse) (P : ch.World → Type 0) (inv : Invariant ch P) where
  Keeps-run :
      (fn : Exec ch.World (Unit {0})) → ((w : ch.World) → P w → P (fn w).1) → Keeps P (run ch fn)
  unfolding run
  Keeps-run fn k = record {
    at = λ s h. execute_keeps ch.get_client fn P inv.at_client k s.manager h;
  }

  Keeps-now : Keeps P (now ch)
  unfolding now
  Keeps-now = record { at = λ s h. inv.at_now s.manager.world h }

  module _ (py : Py) (database : Text) (config : PipelineConfig) where
    Keeps-command : (ddl : Text) → Keeps P (run ch (ch.command ddl))
    Keeps-command ddl = Keeps-run (ch.command ddl) (inv.at_command ddl)

    Keeps-create_unknown : (table : Text) → Keeps P (create_unknown ch database config table)
    unfolding create_unknown
    Keeps-create_unknown table =
        Keeps-bind (run ch (ch.command (create_database_ddl database))) _ (Keeps-command _) (λ u.
          Keeps-bind (run ch (ch.command (create_table_ddl database table config.table_schema))) _
            (Keeps-command _) (λ v. record { at = λ s h. h }))

    Keeps-ensure_named : (t : Named) → Keeps P (ensure_named ch database config t)
    unfolding ensure_named
    Keeps-ensure_named (refused e) = record { at = λ s h. h }
    Keeps-ensure_named (name table) = record {
      at = λ s h. elim (Bool-cases (contains table s.known_tables)) [
        | inl c ↦ simp c h
        | inr c ↦ simp c ((Keeps-create_unknown table).at s h)
      ];
    }

    pub Keeps-ensure_table : Keeps P (ensure_table ch database config)
    unfolding ensure_table
    Keeps-ensure_table = Keeps-ensure_named (table_of config)

    clock_if-keeps :
        (b : Bool) (s : Sink ch.World)
        → P s.manager.world
        → P (clock_if py ch config b s).1.manager.world
    clock_if-keeps true s h = inv.at_now s.manager.world h
    clock_if-keeps false s h = h

    Keeps-map_row : (r : IncomingRecord) → Keeps P (map_row py ch config r)
    unfolding map_row
    Keeps-map_row r = record {
      at = λ s h.
          let (checked, s1) = clock_if py ch config (reads_clock py r.value) s in
          clock_if-keeps (succeeded (to_row py r.value config checked 0)) s1
            (clock_if-keeps (reads_clock py r.value) s h);
    }

    Keeps-sort_row :
        (r : IncomingRecord) (rest : Exec (Sink ch.World) Mapping) (row : Result (Dict Cell))
        → Keeps P rest
        → Keeps P (sort_row py ch config r rest row)
    Keeps-sort_row r rest (ok row) k = record {
      at =
          (Keeps-continue (select (keys config.table_schema) row) _
            (λ cells. Keeps-bind rest _ k (λ m. record { at = λ s h. h }))).at;
    }
    Keeps-sort_row r rest (err e) k = record {
      at = λ s h. elim (Bool-cases (is_record_error e.kind)) [
        | inl c ↦ simp c ((Keeps-bind rest _ k (λ m. record { at = λ s h. h })).at s h)
        | inr c ↦ simp c h
      ];
    }

    pub Keeps-map_records : (rs : List IncomingRecord) → Keeps P (map_records py ch config rs)
    unfolding map_records
    Keeps-map_records [] = record { at = λ s h. h }
    Keeps-map_records (r ∷ rs) = record {
      at = λ s h.
          (Keeps-sort_row r (map_records py ch config rs) (map_row py ch config r s).0
              (Keeps-map_records rs)).at
            (map_row py ch config r s).1 ((Keeps-map_row r).at s h);
    }

    pub Keeps-insert_rows :
        (table : Text) (rows : List (List Cell))
        → Keeps P (insert_rows py ch database table config rows)
    unfolding insert_rows
    Keeps-insert_rows table rows = Keeps-run _ (inv.at_insert _ _ rows)

    pub Keeps-insert_one :
        (table : Text) (r : IncomingRecord) → Keeps P (insert_one py ch database table config r)
    unfolding insert_one
    Keeps-insert_one table r = Keeps-bind (map_row py ch config r) _ (Keeps-map_row r) (λ row.
        Keeps-bind (lift (select (keys config.table_schema) row)) _ (record { at = λ s h. h })
          (λ cells. Keeps-insert_rows table (cells ∷ [])))

    pub insert_individually_keeps :
        (table : Text) (rs : List IncomingRecord) (s : Sink ch.World)
        → P s.manager.world
        → P (insert_individually py ch database table config rs s).1.manager.world
    unfolding insert_individually
    insert_individually_keeps table [] s h = h
    insert_individually_keeps table (r ∷ rs) s h =
        insert_individually_keeps table rs (insert_one py ch database table config r s).1
          ((Keeps-insert_one table r).at s h)

    pub Keeps-dead_letter_any :
        (table : Text) (dead : List Dead)
        → Keeps P (dead_letter_any py ch database table config dead)
    unfolding dead_letter_any dead_letter
    Keeps-dead_letter_any table [] = record { at = λ s h. h }
    Keeps-dead_letter_any table (d ∷ dead) =
        Keeps-bind
          (run ch (
            ch.insert (qualified py ch database dlq_table) (dlq_columns py ch database)
              (map (dlq_row py ch database table config) (d ∷ dead))))
          _ (Keeps-run _ (inv.at_insert _ _ _)) (λ u. record { at = λ s h. h })

    Keeps-record_freshness :
        (rows : List (List Cell)) → Keeps P (record_freshness py ch database config rows)
    unfolding record_freshness
    Keeps-record_freshness rows = record { at = λ s h. inv.at_now s.manager.world h }

    pub Keeps-publish :
        (n : ℕ) (rows : List (List Cell)) → Keeps P (publish py ch database config n rows)
    unfolding publish
    Keeps-publish zero rows = record { at = λ s h. h }
    Keeps-publish (suc n) rows =
        Keeps-bind (count_written py ch database config (suc n)) _ (record { at = λ s h. h })
          (λ u. Keeps-record_freshness rows)

    isolate_keeps :
        (table : Text) (kept : List (IncomingRecord × List Cell)) (done : Result (Unit {0}))
        (t : Sink ch.World)
        → P t.manager.world
        → P (isolate py ch database table config kept done t).1.manager.world
    isolate_keeps table kept (ok u) t h = h
    isolate_keeps table kept (err e) t h = insert_individually_keeps table (records_of kept) t h

    insert_batch_keeps :
        (table : Text) (kept : List (IncomingRecord × List Cell)) (s : Sink ch.World)
        → P s.manager.world
        → P (insert_batch py ch database table config kept s).1.manager.world
    unfolding insert_batch
    insert_batch_keeps table [] s h = h
    insert_batch_keeps table (p ∷ kept) s h =
        isolate_keeps table (p ∷ kept)
          (insert_rows py ch database table config (rows_of (p ∷ kept)) s).0
          (insert_rows py ch database table config (rows_of (p ∷ kept)) s).1
          ((Keeps-insert_rows table (rows_of (p ∷ kept))).at s h)

    Keeps-finish :
        (table : Text) (m : Mapping)
        → Keeps P (λ s.
          finish py ch database table config m (insert_batch py ch database table config m.kept s))
    Keeps-finish table m = record {
      at = λ s h.
          let out : (ℕ × List Dead) × Sink ch.World =
            insert_batch py ch database table config m.kept s in
          (Keeps-bind (dead_letter_any py ch database table config (m.dead ++ out.0.1)) _
              (Keeps-dead_letter_any table (m.dead ++ out.0.1))
              (λ u.
                Keeps-bind (publish py ch database config out.0.0 (rows_of m.kept)) _
                  (Keeps-publish out.0.0 (rows_of m.kept)) (λ v. record { at = λ t k. k }))).at
            out.1 (insert_batch_keeps table m.kept s h);
    }

    pub Keeps-write : (rs : List IncomingRecord) → Keeps P (write py ch database config rs)
    unfolding write
    Keeps-write rs = Keeps-bind (ensure_table ch database config) _ Keeps-ensure_table (λ table.
        Keeps-bind (map_records py ch config rs) _ (Keeps-map_records rs) (Keeps-finish table))
