-- ===== src/Pool/Fixture.antt =====
-- A Python, a ClickHouse and a Kafka that meet what the pool relies on.
use live_streaming_data_pipe.Base.{
  ℕ, ap, arith, text_eq_iff, ◌+◌, ◌≡◌, ◌⊎◌, refl, inl, inr, Text, codes, true, false, Bool, List,
  [], ◌∷◌, All, All-map, In, ◌==◌, if◌then◌else◌,
}
use live_streaming_data_pipe.Base.Int.{pos}
use live_streaming_data_pipe.Base.Exec.{Exc, overflow_error, ok}
use live_streaming_data_pipe.Json.{Value, int, str, obj, end, field, Loaded, parsed, Py}
use live_streaming_data_pipe.Pool.Rows.{Cell, earliest_plausible}
use live_streaming_data_pipe.Pool.ClickHouse.{ClickHouse}
use live_streaming_data_pipe.Pool.Consumer.{Partition, Offsets, Kafka, is_partition}

-- A message with a value and a time.
abbrev pub reading : Value
reading = obj (
    field (codes "fields") (obj (field (codes "value") (int (pos 21)) end))
      (field (codes "timestamp") (int (pos 1_000_000_000_000)) end))

abbrev pub t0 : ℕ
t0 = earliest_plausible + 5

-- Every text loads as the reading, but a text of one character, which loads as a text.
abbrev pub loaded : Text → Loaded
loaded (c ∷ []) = parsed (str (c ∷ []))
loaded _ = parsed reading

abbrev pub py : Py
py = record {
  loads = loaded;
  to_float = λ v. ok 21;
  float_is_zero = λ x. x == 0;
  from_timestamp_ms = λ x. ok t0;
  isoformat = λ t. codes "2001-01-01T00:00:00+00:00";
  to_str = λ v. codes "";
  repr = λ v. codes "";
}

-- Another Python, in which no number fits a float.
abbrev pub too_large : Exc
too_large = record {
  kind = overflow_error;
  name = codes "OverflowError";
  message = codes "int too large to convert to float";
}

abbrev pub Rows : Type 0
Rows = List (Text × List Cell)

abbrev pub add_rows : Text → List (List Cell) → Rows → Rows
add_rows table [] w = w
add_rows table (r ∷ rs) w = (table, r) ∷ add_rows table rs w

pub add_rows_keeps :
    (table : Text) (rs : List (List Cell)) (e : Text × List Cell) (w : Rows)
    → In e w
    → In e (add_rows table rs w)
add_rows_keeps table [] e w i = i
add_rows_keeps table (r ∷ rs) e w i = inr (add_rows_keeps table rs e w i)

pub add_rows_stores :
    (table : Text) (rs : List (List Cell)) (w : Rows)
    → All (λ r. In (table, r) (add_rows table rs w)) rs
add_rows_stores table [] w = tt
add_rows_stores table (r ∷ rs) w = (
  inl refl,
  All-map (λ q. In (table, q) (add_rows table rs w))
      (λ q. In (table, q) ((table, r) ∷ add_rows table rs w)) (λ q i. inr i) rs
      (add_rows_stores table rs w),
)

-- A ClickHouse that stores every insert.
abbrev pub ch : ClickHouse
ch = record {
  World = Rows;
  now = λ w. (t0, w);
  get_client = λ w. (ok tt, w);
  command = λ ddl w. (ok tt, w);
  insert = λ table columns rows w. (ok tt, add_rows table rows w);
  Has = λ table row w. In (table, row) w;
  insert_stores = λ table columns rows w h. add_rows_stores table rows w;
  now_keeps = λ t r w h. h;
  get_client_keeps = λ t r w h. h;
  command_keeps = λ ddl t r w h. h;
  insert_keeps = λ table columns rows t r w h. add_rows_keeps table rows (t, r) w h;
}

unfoldable pub put_offsets : Offsets → (Partition → ℕ) → Partition → ℕ
unfolding is_partition
put_offsets [] w p = w p
put_offsets ((q, o) ∷ offsets) w p = if is_partition q p then o else put_offsets offsets w p

is_partition_eq : (p q : Partition) → is_partition p q ≡ true → p ≡ q
unfolding is_partition
is_partition_eq p q h =
    let e : p.topic ≡ q.topic = ground (arith, text_eq_iff p.topic q.topic) in
    let f : p.number ≡ q.number = ground arith in λ i. record { topic = e i; number = f i }

put_step :
    (q p : Partition) (o v d : ℕ) (offsets : Offsets) (b : Bool)
    → is_partition q p ≡ b
    → (v ≡ d) ⊎ In (p, v) offsets
    → ((if b then o else v) ≡ d) ⊎ In (p, if b then o else v) ((q, o) ∷ offsets)
put_step q p o v d offsets true h i = inr (inl (ap (λ x. (x, o)) (is_partition_eq q p h)))
put_step q p o v d offsets false h (inl e) = inl e
put_step q p o v d offsets false h (inr i) = inr (inr i)

pub put_offsets-moves :
    (offsets : Offsets) (p : Partition) (w : Partition → ℕ)
    → (put_offsets offsets w p ≡ w p) ⊎ In (p, put_offsets offsets w p) offsets
unfolding put_offsets
put_offsets-moves [] p w = inl refl
put_offsets-moves ((q, o) ∷ offsets) p w =
    put_step q p o (put_offsets offsets w p) (w p) offsets (is_partition q p) refl
      (put_offsets-moves offsets p w)

-- A Kafka on which every commit succeeds.
abbrev pub kf : Kafka
kf = record {
  World = Partition → ℕ;
  commit = λ offsets w. (ok tt, put_offsets offsets w);
  committed = λ p w. w p;
  commit_moves = λ offsets p w. put_offsets-moves offsets p w;
}
