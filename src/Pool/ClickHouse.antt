-- ===== src/Pool/ClickHouse.antt =====
-- What the pool relies on of ClickHouse (the package `clickhouse_connect`) and of the clock. `World`
-- is everything outside the process. A call may raise, and may have had its effect all the same.
use live_streaming_data_pipe.Base.{ℕ, Text, List, ◌≡◌, All}
use live_streaming_data_pipe.Base.Exec.{Exec, ok}
use live_streaming_data_pipe.Pool.Rows.{Cell}

pub record ClickHouse : Type 1 where
  pub World : Type 0
  -- `datetime.now` and `time.time`
  pub now : World → ℕ × World
  -- `clickhouse_connect.get_client`
  pub get_client : Exec World (Unit {0})
  -- `client.command`
  pub command : Text → Exec World (Unit {0})
  -- `client.insert` of rows into a table
  pub insert : Text → List Text → List (List Cell) → Exec World (Unit {0})
  -- the table holds the row
  pub Has : Text → List Cell → World → Type 0
  -- An insert that returns has stored every row.
  pub insert_stores :
      (table : Text) (columns : List Text) (rows : List (List Cell)) (w : World)
      → (insert table columns rows w).0 ≡ ok tt
      → All (λ row. Has table row (insert table columns rows w).1) rows
  -- No call of the pool takes a row away.
  pub now_keeps : (t : Text) (r : List Cell) (w : World) → Has t r w → Has t r (now w).1
  pub get_client_keeps :
      (t : Text) (r : List Cell) (w : World) → Has t r w → Has t r (get_client w).1
  pub command_keeps :
      (ddl t : Text) (r : List Cell) (w : World) → Has t r w → Has t r (command ddl w).1
  pub insert_keeps :
      (table : Text) (columns : List Text) (rows : List (List Cell)) (t : Text) (r : List Cell)
      (w : World)
      → Has t r w
      → Has t r (insert table columns rows w).1
