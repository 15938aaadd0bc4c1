-- ===== src/Pool/Sink/Lands.antt =====
-- On the inserts of `write` in services/consumer_pool/app/sink.py: the rows of the table after them.
use live_streaming_data_pipe.Base.{
  ℕ, suc, ◌+◌, ◌≡◌, ◌⊎◌, refl, ap, Text, List, [], ◌∷◌, inl, inr, arith, length, All, All-map,
}
use live_streaming_data_pipe.Base.Dict.{Dict, keys}
use live_streaming_data_pipe.Base.Exec.{Result, ok, err, Exec, continue, ◌>>=◌}
use live_streaming_data_pipe.Json.{Py}
use live_streaming_data_pipe.Model.{PipelineConfig}
use live_streaming_data_pipe.Pool.ClickHouse.{ClickHouse}
use live_streaming_data_pipe.Pool.Rows.{Cell}
use live_streaming_data_pipe.Pool.ToRow.{to_row, select}
use live_streaming_data_pipe.Pool.Manager.Outcome.{execute_done}
use live_streaming_data_pipe.Pool.Sink.Keeps.{Has-Invariant, insert_individually_keeps}
use live_streaming_data_pipe.Pool.Sink.State.{IncomingRecord, Sink, run}
use live_streaming_data_pipe.Pool.Sink.Write.{
  Dead, records_of, rows_of, map_row, insert_rows, insert_one, insert_individually, insert_reason,
  count_one, isolate, insert_batch, qualified,
}
use live_streaming_data_pipe.Pool.Sink.Covers.{InDead, Maps, map_row_ok}

-- The record's row is in the table.
pub record Landed (py : Py) (ch : ClickHouse) (config : PipelineConfig) (table : Text)
    (w : ch.World) (r : IncomingRecord) : Type 0 where
  pub cells : List Cell
  pub maps : Maps py config r cells
  pub has : ch.Has table cells w

module _ (py : Py) (ch : ClickHouse) (database : Text) (config : PipelineConfig)
    (table : Text) where
  abbrev pub full : Text
  full = qualified py ch database table

  abbrev pub Lands : ch.World → IncomingRecord → Type 0
  Lands w r = Landed py ch config full w r

  -- An insert that returns has stored its rows.
  insert_rows_ok :
      (rows : List (List Cell)) (s : Sink ch.World)
      → (insert_rows py ch database table config rows s).0 ≡ ok tt
      → All
          (λ row. ch.Has full row (insert_rows py ch database table config rows s).1.manager.world)
          rows
  unfolding insert_rows run
  insert_rows_ok rows s h =
      execute_done ch.get_client (ch.insert full (keys config.table_schema) rows)
        (λ _ w. All (λ row. ch.Has full row w) rows)
        (λ w a e. ch.insert_stores full (keys config.table_schema) rows w e) s.manager tt h

  -- `insert_one` from the mapped row on
  abbrev store_cells : Result (List Cell) → Exec (Sink ch.World) (Unit {0})
  store_cells cells = continue cells (λ c. insert_rows py ch database table config (c ∷ []))

  abbrev store_row : Result (Dict Cell) → Exec (Sink ch.World) (Unit {0})
  store_row row = continue row (λ d. store_cells (select (keys config.table_schema) d))

  store_cells_ok :
      (r : IncomingRecord) (row : Dict Cell) (cells : Result (List Cell)) (t : Sink ch.World)
      (checked ingested : ℕ)
      → to_row py r.value config checked ingested ≡ ok row
      → select (keys config.table_schema) row ≡ cells
      → (store_cells cells t).0 ≡ ok tt
      → Lands (store_cells cells t).1.manager.world r
  store_cells_ok r row (ok c) t checked ingested mapped selected h = record {
    cells = c;
    maps = record {
      checked = checked;
      ingested = ingested;
      row = row;
      mapped = mapped;
      selected = selected;
    };
    has = (insert_rows_ok (c ∷ []) t h).0;
  }
  store_cells_ok r row (err e) t checked ingested mapped selected h = cc

  store_row_ok :
      (r : IncomingRecord) (s : Sink ch.World) (row : Result (Dict Cell)) (t : Sink ch.World)
      → (map_row py ch config r s).0 ≡ row
      → (store_row row t).0 ≡ ok tt
      → Lands (store_row row t).1.manager.world r
  store_row_ok r s (ok d) t e h =
      let (checked, ingested, mapped) = map_row_ok py ch config r s d e in
      store_cells_ok r d (select (keys config.table_schema) d) t checked ingested mapped refl h
  store_row_ok r s (err x) t e h = cc

  insert_one_ok :
      (r : IncomingRecord) (s : Sink ch.World)
      → (insert_one py ch database table config r s).0 ≡ ok tt
      → Lands (insert_one py ch database table config r s).1.manager.world r
  unfolding insert_one ◌>>=◌
  insert_one_ok r s h =
      store_row_ok r s (map_row py ch config r s).0 (map_row py ch config r s).1 refl h

  -- A record that has landed stays.
  Lands-individually :
      (r : IncomingRecord) (rs : List IncomingRecord) (s : Sink ch.World)
      → Lands s.manager.world r
      → Lands (insert_individually py ch database table config rs s).1.manager.world r
  Lands-individually r rs s h = record {
    cells = h.cells;
    maps = h.maps;
    has =
        insert_individually_keeps ch (ch.Has full h.cells) (Has-Invariant ch full h.cells) py
          database config table rs s h.has;
  }

  abbrev individually : List IncomingRecord → Sink ch.World → (ℕ × List Dead) × Sink ch.World
  individually = insert_individually py ch database table config

  count_one_cover :
      (r : IncomingRecord) (done : Result (Unit {0})) (rest : ℕ × List Dead) (w : ch.World)
      → (done ≡ ok tt → Lands w r)
      → Lands w r ⊎ InDead r (count_one py ch database r done rest).1
  count_one_cover r (ok u) rest w k = inl (k refl)
  count_one_cover r (err e) rest w k = inr (insert_reason py ch database e, inl refl)

  count_one_weaken :
      (x r : IncomingRecord) (done : Result (Unit {0})) (rest : ℕ × List Dead) (w : ch.World)
      → Lands w x ⊎ InDead x rest.1
      → Lands w x ⊎ InDead x (count_one py ch database r done rest).1
  count_one_weaken x r (ok u) rest w c = c
  count_one_weaken x r (err e) rest w (inl l) = inl l
  count_one_weaken x r (err e) rest w (inr (reason, i)) = inr (reason, inr i)

  individually_cover :
      (rs : List IncomingRecord) (s : Sink ch.World)
      → All (λ r. Lands (individually rs s).1.manager.world r ⊎ InDead r (individually rs s).0.1) rs
  unfolding insert_individually
  individually_cover [] s = tt
  individually_cover (r ∷ rs) s =
      let done : Result (Unit {0}) = (insert_one py ch database table config r s).0 in
      let t : Sink ch.World = (insert_one py ch database table config r s).1 in
      let out : (ℕ × List Dead) × Sink ch.World = individually rs t in
      (
        count_one_cover r done out.0 out.1.manager.world
            (λ e. Lands-individually r rs t (insert_one_ok r s e)),
        All-map (λ x. Lands out.1.manager.world x ⊎ InDead x out.0.1)
            (λ x. Lands out.1.manager.world x ⊎ InDead x (count_one py ch database r done out.0).1)
            (λ x. count_one_weaken x r done out.0 out.1.manager.world) rs (individually_cover rs t),
      )

  count_one-length :
      (r : IncomingRecord) (done : Result (Unit {0})) (rest : ℕ × List Dead)
      → (count_one py ch database r done rest).0 + length (count_one py ch database r done rest).1
        ≡ suc (rest.0 + length rest.1)
  count_one-length r (ok u) rest = omega arith
  count_one-length r (err e) rest = omega arith

  individually-length :
      (rs : List IncomingRecord) (s : Sink ch.World)
      → (individually rs s).0.0 + length (individually rs s).0.1 ≡ length rs
  unfolding insert_individually
  individually-length [] s = omega arith
  individually-length (r ∷ rs) s =
      let t : Sink ch.World = (insert_one py ch database table config r s).1 in
      omega (
        arith,
        individually-length rs t,
        count_one-length r (insert_one py ch database table config r s).0 (individually rs t).0,
      )

  -- The batch insert stored the rows that the records map to.
  rows_land :
      (kept : List (IncomingRecord × List Cell)) (w : ch.World)
      → All (λ p. Maps py config p.0 p.1) kept
      → All (λ row. ch.Has full row w) (rows_of kept)
      → All (λ r. Lands w r ⊎ InDead r []) (records_of kept)
  rows_land [] w m h = tt
  rows_land ((r, cells) ∷ kept) w m h =
      (inl (record { cells = cells; maps = m.0; has = h.0 }), rows_land kept w m.1 h.1)

  length-records_of :
      (kept : List (IncomingRecord × List Cell)) → length (records_of kept) ≡ length kept
  length-records_of [] = refl
  length-records_of (p ∷ kept) = ap suc (length-records_of kept)

  length-rows_of : (kept : List (IncomingRecord × List Cell)) → length (rows_of kept) ≡ length kept
  length-rows_of [] = refl
  length-rows_of (p ∷ kept) = ap suc (length-rows_of kept)

  -- What `insert_batch` has done with the kept records.
  pub record BatchDone (kept : List (IncomingRecord × List Cell))
      (out : (ℕ × List Dead) × Sink ch.World) : Type 0 where
    pub covered : All (λ r. Lands out.1.manager.world r ⊎ InDead r out.0.1) (records_of kept)
    pub counted : out.0.0 + length out.0.1 ≡ length kept

  isolate_done :
      (kept : List (IncomingRecord × List Cell)) (done : Result (Unit {0})) (t : Sink ch.World)
      → All (λ p. Maps py config p.0 p.1) kept
      → (done ≡ ok tt → All (λ row. ch.Has full row t.manager.world) (rows_of kept))
      → BatchDone kept (isolate py ch database table config kept done t)
  isolate_done kept (ok u) t m k = record {
    covered = rows_land kept t.manager.world m (k refl);
    counted = omega (arith, length-rows_of kept);
  }
  isolate_done kept (err e) t m k = record {
    covered = individually_cover (records_of kept) t;
    counted = omega (arith, individually-length (records_of kept) t, length-records_of kept);
  }

  pub insert_batch-BatchDone :
      (kept : List (IncomingRecord × List Cell)) (s : Sink ch.World)
      → All (λ p. Maps py config p.0 p.1) kept
      → BatchDone kept (insert_batch py ch database table config kept s)
  unfolding insert_batch
  insert_batch-BatchDone [] s m = record { covered = tt; counted = omega arith }
  insert_batch-BatchDone (p ∷ kept) s m =
      isolate_done (p ∷ kept) (insert_rows py ch database table config (rows_of (p ∷ kept)) s).0
        (insert_rows py ch database table config (rows_of (p ∷ kept)) s).1 m
        (insert_rows_ok (rows_of (p ∷ kept)) s)
