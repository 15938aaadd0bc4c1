-- ===== src/Pool/ToRow.antt =====
-- services/consumer_pool/app/rows.py: `to_row`, on the parts of Pool/Rows.antt.
pub mod Schema
pub mod Errors
use live_streaming_data_pipe.Base.{
  ℕ, Text, codes, Bool, true, false, Option, none, some, List, [], ◌∷◌, ◌++◌, text_eq, ◌&&◌,
  if◌then◌else◌, starts_with,
}
use live_streaming_data_pipe.Base.Int.{pos}
use live_streaming_data_pipe.Base.Dict.{Dict, lookup, insert, update}
use live_streaming_data_pipe.Base.Exec.{Exc, key_error, Result, ok, err}
use live_streaming_data_pipe.Json.{
  Value, null, bool, int, float, str, arr, obj, end, field, entries, Py,
}
use live_streaming_data_pipe.Model.{PipelineConfig}
use live_streaming_data_pipe.Pool.Rows.{
  Cell, json, instant, record_exc, event_time, split_value, dict_or_empty, resolves,
}

-- `type(message).__name__`
unfoldable pub type_name : Value → Text
type_name null = codes "NoneType"
type_name (bool b) = codes "bool"
type_name (int n) = codes "int"
type_name (float x) = codes "float"
type_name (str s) = codes "str"
type_name (arr vs) = codes "list"
type_name (obj fs) = codes "dict"

-- A JSON dictionary as cells.
unfoldable pub cells : Dict Value → Dict Cell
cells [] = []
cells ((k, v) ∷ d) = (k, json v) ∷ cells d

-- `_DEFAULTS.get(ch_type, "")`
unfoldable pub default_cell : Text → Cell
default_cell ch_type = if text_eq ch_type (codes "Int64") then json (int (pos 0)) else json (str [])

-- one column of the loop in `to_row`, on what `source` holds for it
unfoldable pub fill : Text → Option Cell → Cell
unfolding default_cell
fill ch_type (some cell) = cell
fill ch_type none =
    if starts_with ch_type (codes "Nullable") then json null else default_cell ch_type

-- `for column, ch_type in config.table_schema.items()`, adding to `row`
unfoldable pub fill_row : Dict Text → Dict Cell → Dict Cell → Dict Cell
unfolding fill lookup insert
fill_row [] source row = row
fill_row ((column, ch_type) ∷ schema) source row =
    fill_row schema source (insert column (fill ch_type (lookup column source)) row)

-- one item of the comprehension below; `none` is a `KeyError`
abbrev pub push : Text → Option Cell → Result (List Cell) → Result (List Cell)
push c none r = err (record { kind = key_error; name = codes "KeyError"; message = c })
push c (some cell) (ok l) = ok (cell ∷ l)
push c (some cell) (err e) = err e

-- `[row[c] for c in columns]`
unfoldable pub select : List Text → Dict Cell → Result (List Cell)
unfolding lookup
select [] row = ok []
select (c ∷ cs) row = push c (lookup c row) (select cs row)

-- `tags.get("pipeline_id", config.pipeline_id)`
abbrev pub get_or : Option Value → Value → Value
get_or none d = d
get_or (some v) d = v

-- the dictionary that `to_row` calls `source`
unfoldable pub source_of :
    Dict Value → Dict Value → ℕ → Value × Value → ℕ → PipelineConfig → Dict Cell
unfolding update cells insert lookup
source_of tags fields t (value, value_text) ingested config =
    insert (codes "pipeline_id")
      (json (get_or (lookup (codes "pipeline_id") tags) (str config.pipeline_id)))
      (insert (codes "ingested_at") (instant ingested) (
        insert (codes "value_text") (json value_text) (
          insert (codes "value") (json value)
            (insert (codes "event_time") (instant t) (update (cells tags) (cells fields))))))

module _ (py : Py) where
  -- from `_event_time` on, with both dictionaries at hand
  abbrev pub with_value :
      Dict Value → Dict Value → ℕ → PipelineConfig → ℕ → Result (Value × Value) → Result (Dict Cell)
  with_value tags fields ingested config t (ok split) =
      ok (fill_row config.table_schema (source_of tags fields t split ingested config) [])
  with_value tags fields ingested config t (err e) = err e

  abbrev pub with_time :
      Dict Value → Dict Value → ℕ → PipelineConfig → Result ℕ → Result (Dict Cell)
  with_time tags fields ingested config (ok t) =
      with_value tags fields ingested config t (split_value py (lookup (codes "value") fields))
  with_time tags fields ingested config (err e) = err e

  abbrev pub with_dicts :
      Dict Value
      → ℕ
      → ℕ
      → PipelineConfig
      → Option (Dict Value)
      → Option (Dict Value)
      → Result (Dict Cell)
  with_dicts message now ingested config (some tags) (some fields) =
      with_time tags fields ingested config (event_time py message now)
  with_dicts message now ingested config _ _ =
      err (record_exc (codes "tags and fields must both be objects"))

  unfoldable pub to_row : Value → PipelineConfig → ℕ → ℕ → Result (Dict Cell)
  unfolding source_of fill_row event_time split_value dict_or_empty lookup entries type_name
  to_row (obj fs) config now ingested =
      let message = entries fs in
      with_dicts message now ingested config (dict_or_empty py (lookup (codes "tags") message))
        (dict_or_empty py (lookup (codes "fields") message))
  to_row v config now ingested =
      err (record_exc (codes "expected a JSON object, got " ++ type_name v))

  abbrev pub both_dicts : Option (Dict Value) → Option (Dict Value) → Bool
  both_dicts (some tags) (some fields) = true
  both_dicts _ _ = false

  -- Whether `to_row` comes to the clock of `_event_time`.
  unfoldable pub reads_clock : Value → Bool
  unfolding resolves dict_or_empty lookup entries
  reads_clock (obj fs) =
      let message = entries fs in
      both_dicts (dict_or_empty py (lookup (codes "tags") message))
        (dict_or_empty py (lookup (codes "fields") message))
      && resolves py (lookup (codes "timestamp") message)
  reads_clock v = false
