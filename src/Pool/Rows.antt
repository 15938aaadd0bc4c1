-- ===== src/Pool/Rows.antt =====
-- services/consumer_pool/app/rows.py: a Telegraf message becomes a row of the pipeline's declared
-- schema. `now` and `ingested` are the readings of the two `datetime.now` calls, in order.
use live_streaming_data_pipe.Base.{
  ℕ, ◌+◌, ◌*◌, Text, codes, Bool, true, false, Option, none, some, [], ◌∷◌, ◌++◌, ltb, ◌==◌,
  if◌then◌else◌,
}
use live_streaming_data_pipe.Base.Int.{pos, negsuc}
use live_streaming_data_pipe.Base.Dict.{Dict, lookup}
use live_streaming_data_pipe.Base.Exec.{
  Exc, ExcKind, record_error, type_error, value_error, os_error, overflow_error, Result, ok, err,
}
use live_streaming_data_pipe.Json.{
  Value, null, bool, int, float, str, arr, obj, nil, cons, end, field, entries, Py,
}

-- A value in a row: one of the message's, or a `datetime`.
pub data Cell : Type 0 where
  json : Value → Cell
  instant : ℕ → Cell

abbrev pub record_exc : Text → Exc
record_exc message = record { kind = record_error; name = codes "RecordError"; message = message }

-- `_EARLIEST_PLAUSIBLE`: 2001-01-01 UTC.
abbrev pub earliest_plausible : ℕ
earliest_plausible = 63_113_904_000 * 1_000_000

-- `_FUTURE_TOLERANCE_S`, in microseconds.
abbrev pub future_tolerance : ℕ
future_tolerance = 86_400 * 1_000_000

-- `except (TypeError, ValueError, OSError, OverflowError)`
abbrev pub is_timestamp_error : ExcKind → Bool
is_timestamp_error type_error = true
is_timestamp_error value_error = true
is_timestamp_error os_error = true
is_timestamp_error overflow_error = true
is_timestamp_error _ = false

abbrev pub succeeded : {A : Type 0} → Result A → Bool
succeeded (ok a) = true
succeeded (err e) = false

module _ (py : Py) where
  -- the two bounds of `_event_time`, on the instant that `raw` resolves to
  unfoldable pub check_plausible : Value → ℕ → ℕ → Result ℕ
  check_plausible raw now t =
      if ltb t earliest_plausible
      then err (
          record_exc (
            codes "timestamp "
            ++ (py.repr raw
                ++ (codes " resolves to "
                    ++ (py.isoformat t
                        ++ codes
                            " — implausibly old, which usually means the producer is emitting seconds while this expects milliseconds (json_timestamp_units)")))))
      else if ltb (now + future_tolerance) t
      then err (
          record_exc (
            codes "timestamp "
            ++ (py.repr raw
                ++ (codes " resolves to "
                    ++ (py.isoformat t ++ codes ", more than a day in the future")))))
      else ok t

  -- the handler around `fromtimestamp(float(raw) / 1000.0)`
  unfoldable pub or_unusable : Value → Result ℕ → Result ℕ
  or_unusable raw (ok t) = ok t
  or_unusable raw (err exc) =
      if is_timestamp_error exc.kind
      then err
          (record_exc (codes "unusable timestamp " ++ (py.repr raw ++ (codes ": " ++ exc.message))))
      else err exc

  -- `datetime.fromtimestamp(float(raw) / 1000.0, tz=timezone.utc)`
  unfoldable pub resolve : Value → Result ℕ
  resolve raw = elim (py.to_float raw) [ ok x ↦ py.from_timestamp_ms x | err exc ↦ err exc ]

  -- Whether `_event_time` comes to read the clock.
  unfoldable pub resolves : Option Value → Bool
  unfolding resolve
  resolves none = false
  resolves (some null) = false
  resolves (some raw) = succeeded (resolve raw)

  abbrev pub then_check : Value → ℕ → Result ℕ → Result ℕ
  then_check raw now (ok t) = check_plausible raw now t
  then_check raw now (err exc) = err exc

  -- `message.get("timestamp")` is absent or null in the first two cases
  unfoldable pub event_time_of : ℕ → Option Value → Result ℕ
  unfolding or_unusable resolve
  event_time_of now none = err (record_exc (codes "message has no timestamp"))
  event_time_of now (some null) = err (record_exc (codes "message has no timestamp"))
  event_time_of now (some raw) = then_check raw now (or_unusable raw (resolve raw))

  unfoldable pub event_time : Dict Value → ℕ → Result ℕ
  unfolding event_time_of lookup
  event_time message now = event_time_of now (lookup (codes "timestamp") message)

  -- `float(value), None` may raise
  abbrev pub as_reading : Result ℕ → Result (Value × Value)
  as_reading (ok x) = ok (float x, null)
  as_reading (err exc) = err exc

  -- `_split_value(fields.get("value"))`: a missing value reads as None
  unfoldable pub split_value : Option Value → Result (Value × Value)
  split_value none = ok (null, null)
  split_value (some null) = ok (null, null)
  split_value (some (bool b)) = ok (null, str (py.to_str (bool b)))
  split_value (some (int n)) = as_reading (py.to_float (int n))
  split_value (some (float x)) = as_reading (py.to_float (float x))
  split_value (some v) = ok (null, str (py.to_str v))

  -- `not v` for a JSON value
  unfoldable pub is_falsy : Value → Bool
  is_falsy null = true
  is_falsy (bool b) = if b then false else true
  is_falsy (int (pos n)) = n == 0
  is_falsy (int (negsuc n)) = false
  is_falsy (float x) = py.float_is_zero x
  is_falsy (str []) = true
  is_falsy (str (c ∷ s)) = false
  is_falsy (arr nil) = true
  is_falsy (arr (cons v vs)) = false
  is_falsy (obj end) = true
  is_falsy (obj (field k v fs)) = false

  -- `isinstance(v, dict)` after `v or {}`; `none` is another type
  abbrev pub as_dict : Value → Option (Dict Value)
  as_dict (obj fs) = some (entries fs)
  as_dict _ = none

  unfoldable pub dict_or_empty : Option Value → Option (Dict Value)
  unfolding is_falsy entries
  dict_or_empty none = some []
  dict_or_empty (some v) = if is_falsy v then some [] else as_dict v
