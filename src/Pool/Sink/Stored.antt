-- ===== src/Pool/Sink/Stored.antt =====
-- On `write` of services/consumer_pool/app/sink.py: what ClickHouse holds after it.
use mathlib.Core.Path.{subst}
use live_streaming_data_pipe.Base.{
  ℕ, ◌+◌, ◌≡◌, ◌⊎◌, refl, Text, List, [], ◌∷◌, ◌++◌, inl, inr, arith, length, length-append, All,
  All-map, In, map, take,
}
use live_streaming_data_pipe.Base.Exec.{Result, ok, err, Exec, pure, continue, ◌>>=◌}
use live_streaming_data_pipe.Json.{Py}
use live_streaming_data_pipe.Model.{PipelineConfig, table_of}
use live_streaming_data_pipe.Naming.{Named, name, refused}
use live_streaming_data_pipe.Schema.{dlq_table, create_database_ddl, create_table_ddl}
use live_streaming_data_pipe.Pool.ClickHouse.{ClickHouse}
use live_streaming_data_pipe.Pool.Rows.{Cell}
use live_streaming_data_pipe.Pool.Manager.Outcome.{execute_done}
use live_streaming_data_pipe.Pool.Sink.Keeps.{
  Invariant, Has-Invariant, Keeps-dead_letter_any, Keeps-publish,
}
use live_streaming_data_pipe.Pool.Sink.State.{
  IncomingRecord, WriteResult, Sink, run, ensure_table, ensure_named, create_unknown, remember,
}
use live_streaming_data_pipe.Pool.Sink.Write.{
  Dead, Mapping, map_records, insert_batch, dead_letter, dead_letter_any, dlq_row, dlq_columns,
  count_dead, publish, rows_of, reasons, finish, write, qualified,
}
use live_streaming_data_pipe.Pool.Sink.Covers.{
  InDead, Sorts, Sorts-length, Sorts-Maps, Sorts-cover, map_records-Sorts,
}
use live_streaming_data_pipe.Pool.Sink.Lands.{Landed, BatchDone, insert_batch-BatchDone}

module _ (py : Py) (ch : ClickHouse) (database : Text) (config : PipelineConfig) where
  -- The record is in the pipeline's table, or in the dead-letter table with some reason.
  pub data Accounted (table : Text) (w : ch.World) (r : IncomingRecord) : Type 0 where
    landed : Landed py ch config (qualified py ch database table) w r → Accounted table w r
    lettered :
        (reason : Text)
        → ch.Has
            (qualified py ch database dlq_table)
            (dlq_row py ch database table config (r, reason))
            w
        → Accounted table w r

  -- `write` has returned `result` in the world `w`.
  pub record Written (rs : List IncomingRecord) (result : WriteResult) (w : ch.World) : Type 0 where
    pub table : Text
    pub named : table_of config ≡ name table
    pub accounted : All (Accounted table w) rs
    pub counted : result.written + result.dead_lettered ≡ length rs

  abbrev dlq : Text
  dlq = qualified py ch database dlq_table

  -- the rows that `_dead_letter` inserts
  abbrev DeadRows : Text → List Dead → ch.World → Type 0
  DeadRows table dead w =
      All (λ row. ch.Has dlq row w) (map (dlq_row py ch database table config) dead)

  count_dead_ok :
      (X : ch.World → Type 0) (n : ℕ) (r : Result (Unit {0})) (t : Sink ch.World)
      → (r ≡ ok tt → X t.manager.world)
      → (continue r (λ _. count_dead py ch database config n) t).0 ≡ ok tt
      → X (continue r (λ _. count_dead py ch database config n) t).1.manager.world
  count_dead_ok X n (ok u) t k h = k refl
  count_dead_ok X n (err e) t k h = cc

  dead_letter_any_ok :
      (table : Text) (dead : List Dead) (s : Sink ch.World)
      → (dead_letter_any py ch database table config dead s).0 ≡ ok tt
      → DeadRows table dead (dead_letter_any py ch database table config dead s).1.manager.world
  unfolding dead_letter_any dead_letter ◌>>=◌
  dead_letter_any_ok table [] s h = tt
  dead_letter_any_ok table (d ∷ dead) s h =
      let rows : List (List Cell) = map (dlq_row py ch database table config) (d ∷ dead) in
      let columns : List Text = dlq_columns py ch database in
      count_dead_ok (DeadRows table (d ∷ dead)) (length (d ∷ dead))
        (run ch (ch.insert dlq columns rows) s).0 (run ch (ch.insert dlq columns rows) s).1
        (unfold run in
          execute_done ch.get_client (ch.insert dlq columns rows)
            (λ _ w. All (λ row. ch.Has dlq row w) rows)
            (λ w a e. ch.insert_stores dlq columns rows w e) s.manager tt)
        h

  In-DeadRows :
      (table : Text) (dead : List Dead) (w : ch.World) (d : Dead)
      → DeadRows table dead w
      → In d dead
      → ch.Has dlq (dlq_row py ch database table config d) w
  In-DeadRows table [] w d h i = elim i [ ]
  In-DeadRows table (x ∷ dead) w d h (inl e) =
      subst (λ y. ch.Has dlq (dlq_row py ch database table config y) w) e h.0
  In-DeadRows table (x ∷ dead) w d h (inr i) = In-DeadRows table dead w d h.1 i

  -- What holds of the world after `finish` returned.
  module _ (table : Text) (named : table_of config ≡ name table) (rs : List IncomingRecord)
      (m : Mapping) (sorts : Sorts py config rs m) (out : (ℕ × List Dead) × Sink ch.World)
      (batch : BatchDone py ch database config table m.kept out) where
    abbrev all_dead : List Dead
    all_dead = m.dead ++ out.0.1

    abbrev result : WriteResult
    result = record {
      written = out.0.0;
      dead_lettered = length all_dead;
      errors = reasons py ch database (take 5 all_dead);
    }

    abbrev dl : Result (Unit {0}) × Sink ch.World
    dl = dead_letter_any py ch database table config all_dead out.1

    abbrev pb : Result (Unit {0}) × Sink ch.World
    pb = publish py ch database config out.0.0 (rows_of m.kept) dl.1

    at_end :
        (r : IncomingRecord)
        → dl.0 ≡ ok tt
        → Landed py ch config (qualified py ch database table) out.1.manager.world r
          ⊎ InDead r all_dead
        → Accounted table pb.1.manager.world r
    at_end r e (inl l) = landed (record {
      cells = l.cells;
      maps = l.maps;
      has =
          let inv : Invariant ch (ch.Has (qualified py ch database table) l.cells) =
            Has-Invariant ch (qualified py ch database table) l.cells in
          (Keeps-publish ch _ inv py database config out.0.0 (rows_of m.kept)).at dl.1
            ((Keeps-dead_letter_any ch _ inv py database config table all_dead).at out.1 l.has);
    })
    at_end r e (inr (reason, i)) =
        let row : List Cell = dlq_row py ch database table config (r, reason) in
        lettered reason (
          (Keeps-publish ch (ch.Has dlq row) (Has-Invariant ch dlq row) py database config out.0.0
              (rows_of m.kept)).at
            dl.1
            (In-DeadRows table all_dead dl.1.manager.world (r, reason)
              (dead_letter_any_ok table all_dead out.1 e) i))

    abbrev tail : Unit {0} → Exec (Sink ch.World) WriteResult
    tail u w =
        continue (publish py ch database config out.0.0 (rows_of m.kept) w).0 (λ _. pure result)
          (publish py ch database config out.0.0 (rows_of m.kept) w).1

    tail_done :
        (final : WriteResult) (p : Result (Unit {0}))
        → dl.0 ≡ ok tt
        → (continue p (λ _. pure result) pb.1).0 ≡ ok final
        → Written rs final (continue p (λ _. pure result) pb.1).1.manager.world
    tail_done final (ok u) e h =
        let same : result ≡ final = cc in
        subst (λ x. Written rs x pb.1.manager.world) same
          (record {
            table = table;
            named = named;
            accounted =
                All-map
                  (λ r.
                    Landed py ch config (qualified py ch database table) out.1.manager.world r
                    ⊎ InDead r all_dead)
                  (Accounted table pb.1.manager.world) (λ r. at_end r e) rs
                  (Sorts-cover py config
                    (Landed py ch config (qualified py ch database table) out.1.manager.world)
                    out.0.1 sorts batch.covered);
            counted = omega (
              arith,
              batch.counted,
              Sorts-length py config sorts,
              length-append {0} m.dead out.0.1,
            );
          })
    tail_done final (err x) e h = cc

    head_done :
        (final : WriteResult) (a : Result (Unit {0}))
        → dl.0 ≡ a
        → (continue a tail dl.1).0 ≡ ok final
        → Written rs final (continue a tail dl.1).1.manager.world
    head_done final (ok u) e h = tail_done final pb.0 e h
    head_done final (err x) e h = cc

    finish_done :
        (final : WriteResult)
        → (finish py ch database table config m out).0 ≡ ok final
        → Written rs final (finish py ch database table config m out).1.manager.world
    unfolding ◌>>=◌
    finish_done final h = head_done final dl.0 refl h

  remember_named :
      (table x : Text) (r : Result (Unit {0})) (t : Sink ch.World)
      → (continue r (λ _. remember ch database table) t).0 ≡ ok x
      → table ≡ x
  remember_named table x (ok u) t h = cc
  remember_named table x (err e) t h = cc

  create_unknown_named :
      (table x : Text) (s : Sink ch.World)
      → (create_unknown ch database config table s).0 ≡ ok x
      → table ≡ x
  unfolding create_unknown ◌>>=◌
  create_unknown_named table x s h =
      go (run ch (ch.command (create_database_ddl database)) s).0
        (run ch (ch.command (create_database_ddl database)) s).1 h
    where
      ddl : Exec (Sink ch.World) (Unit {0})
      ddl = run ch (ch.command (create_table_ddl database table config.table_schema))

      go :
          (r : Result (Unit {0})) (t : Sink ch.World)
          → (continue r (λ _ t. continue (ddl t).0 (λ _. remember ch database table) (ddl t).1) t).0
            ≡ ok x
          → table ≡ x
      go (ok u) t k = remember_named table x (ddl t).0 (ddl t).1 k
      go (err e) t k = cc

  ensure_named_ok :
      (n : Named) (s : Sink ch.World) (x : Text)
      → (ensure_named ch database config n s).0 ≡ ok x
      → n ≡ name x
  unfolding ensure_named
  ensure_named_ok (refused e) s x h = cc
  ensure_named_ok (name table) s x h = ground (arith, create_unknown_named table x s)

  ensure_table_named :
      (s : Sink ch.World) (x : Text)
      → (ensure_table ch database config s).0 ≡ ok x
      → table_of config ≡ name x
  unfolding ensure_table
  ensure_table_named s x h = unfold table_of in ensure_named_ok (table_of config) s x h

  module _ (rs : List IncomingRecord) (final : WriteResult) where
    -- `write` after the table is there, and after the records are sorted
    abbrev insert_sorted : Text → Mapping → Exec (Sink ch.World) WriteResult
    insert_sorted table m s =
        finish py ch database table config m (insert_batch py ch database table config m.kept s)

    sorted_done :
        (table : Text) (r : Result Mapping) (s t : Sink ch.World)
        → table_of config ≡ name table
        → (map_records py ch config rs s).0 ≡ r
        → (continue r (insert_sorted table) t).0 ≡ ok final
        → Written rs final (continue r (insert_sorted table) t).1.manager.world
    sorted_done table (ok m) s t named e h =
        let sorts : Sorts py config rs m = map_records-Sorts py ch config rs s m e in
        finish_done table named rs m sorts (insert_batch py ch database table config m.kept t)
          (insert_batch-BatchDone py ch database config table m.kept t (Sorts-Maps py config sorts))
          final h
    sorted_done table (err x) s t named e h = cc

    abbrev map_then_insert : Text → Exec (Sink ch.World) WriteResult
    map_then_insert table s =
        continue (map_records py ch config rs s).0 (insert_sorted table)
          (map_records py ch config rs s).1

    table_done :
        (r : Result Text) (t : Sink ch.World)
        → ((table : Text) → r ≡ ok table → table_of config ≡ name table)
        → (continue r map_then_insert t).0 ≡ ok final
        → Written rs final (continue r map_then_insert t).1.manager.world
    table_done (ok table) t named h =
        sorted_done table (map_records py ch config rs t).0 t (map_records py ch config rs t).1
          (named table refl) refl h
    table_done (err x) t named h = cc

    -- When `write` returns, every record of the batch has its mapped row in the pipeline's table, or a
    -- row in the dead-letter table that carries its coordinates, and the two counts of the result add up
    -- to the number of records.
    pub write-Written :
        (s : Sink ch.World)
        → (write py ch database config rs s).0 ≡ ok final
        → Written rs final (write py ch database config rs s).1.manager.world
    unfolding write ◌>>=◌
    write-Written s =
        table_done (ensure_table ch database config s).0 (ensure_table ch database config s).1
          (λ table. ensure_table_named s table)
