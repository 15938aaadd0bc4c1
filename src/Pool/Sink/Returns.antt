-- ===== src/Pool/Sink/Returns.antt =====
-- On `write` of services/consumer_pool/app/sink.py: when it returns.
use live_streaming_data_pipe.Base.{
  ℕ, zero, suc, ◌≡◌, refl, Text, codes, Bool-cases, inl, inr, List, [], ◌∷◌, ◌++◌, All, map,
}
use live_streaming_data_pipe.Base.Dict.{Dict, keys, Distinct}
use live_streaming_data_pipe.Base.Exec.{
  Exc, record_error, Result, ok, err, Exec, continue, pure, ◌>>=◌,
}
use live_streaming_data_pipe.Json.{Py}
use live_streaming_data_pipe.Model.{PipelineConfig, table_of}
use live_streaming_data_pipe.Naming.{name}
use live_streaming_data_pipe.Schema.{dlq_table, create_database_ddl, create_table_ddl}
use live_streaming_data_pipe.Pool.ClickHouse.{ClickHouse}
use live_streaming_data_pipe.Pool.Rows.{Cell}
use live_streaming_data_pipe.Pool.ToRow.{to_row, select}
use live_streaming_data_pipe.Pool.ToRow.Schema.{to_row-columns}
use live_streaming_data_pipe.Pool.Manager.{
  Manager, get_client, call, attempt, retry, execute_from, execute, base_backoff,
}
use live_streaming_data_pipe.Pool.Sink.State.{
  IncomingRecord, Sink, run, contains, create_unknown, ensure_table,
}
use live_streaming_data_pipe.Pool.Sink.Write.{
  Mapping, Dead, map_row, sort_row, map_records, insert_batch, qualified, dlq_row, dlq_columns,
  dead_letter, dead_letter_any, record_freshness, publish, finish, write, rows_of,
}

-- Every call of ClickHouse returns.
pub record Answers (ch : ClickHouse) : Type 0 where
  pub connects : (w : ch.World) → (ch.get_client w).0 ≡ ok tt
  pub commands : (ddl : Text) (w : ch.World) → (ch.command ddl w).0 ≡ ok tt
  pub inserts :
      (table : Text) (columns : List Text) (rows : List (List Cell)) (w : ch.World)
      → (ch.insert table columns rows w).0 ≡ ok tt

-- What leaves `to_row` on the record is a `RecordError` at most.
abbrev pub Maps : Py → PipelineConfig → IncomingRecord → Type 0
Maps py config r =
    (now ingested : ℕ) (e : Exc)
    → to_row py r.value config now ingested ≡ err e
    → e.kind ≡ record_error

-- The call returns something.
abbrev pub Returns : {A B : Type 0} → Result A × B → Type 0
Returns {A} x = (a : A) × (x.0 ≡ ok a)

module _ (py : Py) (ch : ClickHouse) (answers : Answers ch) (database : Text)
    (config : PipelineConfig) where
  get_client-Returns : (m : Manager ch.World) → (get_client ch.get_client m).0 ≡ ok tt
  unfolding get_client
  get_client-Returns m = elim (Bool-cases m.client) [
    | inl c ↦ simp c refl
    | inr c ↦ simp c (rw (answers.connects m.world) refl)
  ]

  module _ (fn : Exec ch.World (Unit {0})) (h : (w : ch.World) → (fn w).0 ≡ ok tt) where
    call-Returns :
        (r : Result (Unit {0})) (m : Manager ch.World)
        → r ≡ ok tt
        → (call ch.get_client fn (r, m)).0 ≡ ok tt
    call-Returns (ok u) m e = h m.world
    call-Returns (err x) m e = cc

    attempt-Returns : (m : Manager ch.World) → (attempt ch.get_client fn m).0 ≡ ok tt
    unfolding attempt
    attempt-Returns m =
        call-Returns (get_client ch.get_client m).0 (get_client ch.get_client m).1
          (get_client-Returns m)

    retry-Returns :
        (again : ℕ → Manager ch.World → Result (Unit {0}) × Manager ch.World) (backoff : ℕ)
        (r : Result (Unit {0})) (m : Manager ch.World)
        → r ≡ ok tt
        → (retry ch.get_client fn again backoff (r, m)).0 ≡ ok tt
    retry-Returns again backoff (ok u) m e = e
    retry-Returns again backoff (err x) m e = cc

    run-Returns : (s : Sink ch.World) → (run ch fn s).0 ≡ ok tt
    unfolding run execute execute_from
    run-Returns s =
        retry-Returns (execute_from ch.get_client fn 5) base_backoff
          (attempt ch.get_client fn s.manager).0 (attempt ch.get_client fn s.manager).1
          (attempt-Returns s.manager)

  create_unknown-Returns :
      (table : Text) (s : Sink ch.World) → (create_unknown ch database config table s).0 ≡ ok table
  unfolding create_unknown ◌>>=◌
  create_unknown-Returns table s =
      let first = ch.command (create_database_ddl database) in
      let second = ch.command (create_table_ddl database table config.table_schema) in
      rw (run-Returns first (answers.commands (create_database_ddl database)) s) (
        rw
          (run-Returns second
            (answers.commands (create_table_ddl database table config.table_schema))
            (run ch first s).1)
          refl)

  ensure_table-Returns :
      (table : Text) (s : Sink ch.World)
      → table_of config ≡ name table
      → (ensure_table ch database config s).0 ≡ ok table
  unfolding ensure_table
  ensure_table-Returns table s named = rw named (elim (Bool-cases (contains table s.known_tables)) [
    | inl c ↦ simp c refl
    | inr c ↦ simp c (create_unknown-Returns table s)
  ])

  module _ (distinct : Distinct config.table_schema) where
    select-Returns :
        (r : IncomingRecord) (now ingested : ℕ) (row : Dict Cell)
        → to_row py r.value config now ingested ≡ ok row
        → (cells : List Cell) × (select (keys config.table_schema) row ≡ ok cells)
    select-Returns r now ingested row h =
        let found = to_row-columns py r.value config now ingested row distinct h in
        (found.0.0, found.0.1)

    kept-Returns :
        (r : IncomingRecord) (cells : List Cell) (x : Result Mapping × Sink ch.World)
        → Returns x
        → Returns (continue x.0 (λ m. pure (record m { kept = (r, cells) ∷ m.kept })) x.1)
    kept-Returns r cells (ok m, s) h = (_, refl)
    kept-Returns r cells (err e, s) (m, q) = cc

    dead-Returns :
        (r : IncomingRecord) (reason : Text) (x : Result Mapping × Sink ch.World)
        → Returns x
        → Returns (continue x.0 (λ m. pure (record m { dead = (r, reason) ∷ m.dead })) x.1)
    dead-Returns r reason (ok m, s) h = (_, refl)
    dead-Returns r reason (err e, s) (m, q) = cc

    sort_row-Returns :
        (r : IncomingRecord) (rest : Exec (Sink ch.World) Mapping) (x : Result (Dict Cell))
        (now ingested : ℕ) (s : Sink ch.World)
        → Maps py config r
        → to_row py r.value config now ingested ≡ x
        → ((t : Sink ch.World) → Returns (rest t))
        → Returns (sort_row py ch config r rest x s)
    unfolding ◌>>=◌
    sort_row-Returns r rest (ok row) now ingested s maps e h =
        let (cells, q) = select-Returns r now ingested row e in
        rw q (kept-Returns r cells (rest s) (h s))
    sort_row-Returns r rest (err x) now ingested s maps e h =
        simp (maps now ingested x e) (dead-Returns r (codes "map: " ++ x.message) (rest s) (h s))

    map_records-Returns :
        (rs : List IncomingRecord) (s : Sink ch.World)
        → All (Maps py config) rs
        → Returns (map_records py ch config rs s)
    unfolding map_records map_row ◌>>=◌
    map_records-Returns [] s h = (_, refl)
    map_records-Returns (r ∷ rs) s h =
        sort_row-Returns r (map_records py ch config rs) _ _ _ _ h.0 refl
          (λ t. map_records-Returns rs t h.1)

    dead_letter_any-Returns :
        (table : Text) (dead : List Dead) (s : Sink ch.World)
        → (dead_letter_any py ch database table config dead s).0 ≡ ok tt
    unfolding dead_letter_any dead_letter ◌>>=◌
    dead_letter_any-Returns table [] s = refl
    dead_letter_any-Returns table (d ∷ dead) s =
        let target = qualified py ch database dlq_table in
        let rows = map (dlq_row py ch database table config) (d ∷ dead) in
        rw
          (run-Returns (ch.insert target (dlq_columns py ch database) rows)
            (answers.inserts target (dlq_columns py ch database) rows) s)
          refl

    publish-Returns :
        (n : ℕ) (rows : List (List Cell)) (s : Sink ch.World)
        → (publish py ch database config n rows s).0 ≡ ok tt
    unfolding publish record_freshness ◌>>=◌
    publish-Returns zero rows s = refl
    publish-Returns (suc n) rows s = refl

    finish-Returns :
        (table : Text) (m : Mapping) (x : (ℕ × List Dead) × Sink ch.World)
        → Returns (finish py ch database table config m x)
    unfolding ◌>>=◌
    finish-Returns table m ((written, isolated), s) =
        let dead = m.dead ++ isolated in
        rw (dead_letter_any-Returns table dead s) (
          rw
            (publish-Returns written (rows_of m.kept)
              (dead_letter_any py ch database table config dead s).1)
            (_, refl))

    mapped-Returns :
        (table : Text) (x : Result Mapping × Sink ch.World)
        → Returns x
        → Returns (
            continue x.0
              (λ m s.
                finish py ch database table config m
                  (insert_batch py ch database table config m.kept s))
              x.1)
    mapped-Returns table (ok m, s) h =
        finish-Returns table m (insert_batch py ch database table config m.kept s)
    mapped-Returns table (err e, s) (m, q) = cc

    -- If every call of ClickHouse returns, the pipeline's table has a name, its schema lists no column
    -- twice, and no exception but a `RecordError` leaves `to_row` on the records, then `write` returns.
    pub write-Returns :
        (table : Text) (rs : List IncomingRecord) (s : Sink ch.World)
        → table_of config ≡ name table
        → All (Maps py config) rs
        → Returns (write py ch database config rs s)
    unfolding write ◌>>=◌
    write-Returns table rs s named h = rw (ensure_table-Returns table s named) (
        mapped-Returns table (map_records py ch config rs (ensure_table ch database config s).1)
          (map_records-Returns rs (ensure_table ch database config s).1 h))
