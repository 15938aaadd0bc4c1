-- ===== src/Pool/ToRow/Errors.antt =====
-- On `to_row` of services/consumer_pool/app/rows.py: which exceptions leave it.
use live_streaming_data_pipe.Base.{
  ℕ, ◌≡◌, ◌⊎◌, inl, inr, refl, codes, true, Option, none, some, arith, ◌∙◌,
}
use live_streaming_data_pipe.Base.Dict.{Dict, lookup}
use live_streaming_data_pipe.Base.Exec.{Exc, record_error, Result, ok, err}
use live_streaming_data_pipe.Json.{Value, null, int, float, obj, Fields, entries, Py}
use live_streaming_data_pipe.Model.{PipelineConfig}
use live_streaming_data_pipe.Pool.Rows.{
  event_time, event_time_of, check_plausible, then_check, or_unusable, resolve, is_timestamp_error,
  split_value, as_reading, dict_or_empty,
}
use live_streaming_data_pipe.Pool.ToRow.{with_value, with_time, with_dicts, to_row}

abbrev pub IsRecordError : Exc → Type 0
IsRecordError e = e.kind ≡ record_error

-- What `float` and `fromtimestamp` raise is among the classes that `_event_time` names.
pub record TimestampErrors (py : Py) : Type 0 where
  pub to_float_raises :
      (v : Value) (e : Exc) → py.to_float v ≡ err e → is_timestamp_error e.kind ≡ true
  pub from_timestamp_raises :
      (x : ℕ) (e : Exc) → py.from_timestamp_ms x ≡ err e → is_timestamp_error e.kind ≡ true

module _ (py : Py) (named : TimestampErrors py) where
  resolve_raises :
      (raw : Value) (e : Exc) → resolve py raw ≡ err e → is_timestamp_error e.kind ≡ true
  unfolding resolve
  resolve_raises raw e h = at_float (py.to_float raw) refl h
    where
      at_float :
          (r : Result ℕ)
          → py.to_float raw ≡ r
          → (elim r [ ok x ↦ py.from_timestamp_ms x | err exc ↦ err exc ]) ≡ err e
          → is_timestamp_error e.kind ≡ true
      at_float (ok x) p q = named.from_timestamp_raises x e q
      at_float (err exc) p q = named.to_float_raises raw e (cc)

  or_unusable_raises :
      (raw : Value) (r : Result ℕ) (e : Exc)
      → ((exc : Exc) → r ≡ err exc → is_timestamp_error exc.kind ≡ true)
      → or_unusable py raw r ≡ err e
      → IsRecordError e
  unfolding or_unusable
  or_unusable_raises raw (ok t) e k h = cc
  or_unusable_raises raw (err exc) e k h = ground (arith, k exc refl)

  check_plausible_raises :
      (raw : Value) (now t : ℕ) (e : Exc) → check_plausible py raw now t ≡ err e → IsRecordError e
  unfolding check_plausible
  check_plausible_raises raw now t e h = ground arith

  then_check_raises :
      (raw : Value) (now : ℕ) (r : Result ℕ) (e : Exc)
      → ((exc : Exc) → r ≡ err exc → IsRecordError exc)
      → then_check py raw now r ≡ err e
      → IsRecordError e
  then_check_raises raw now (ok t) e k h = check_plausible_raises raw now t e h
  then_check_raises raw now (err exc) e k h = k e (cc)

  event_time_raises :
      (raw : Option Value) (now : ℕ) (e : Exc) → event_time_of py now raw ≡ err e → IsRecordError e
  unfolding event_time_of
  event_time_raises none now e h = cc
  event_time_raises (some null) now e h = cc
  event_time_raises (some raw) now e h =
      then_check_raises raw now (or_unusable py raw (resolve py raw)) e
        (λ exc. or_unusable_raises raw (resolve py raw) exc (resolve_raises raw)) h

  -- A number in `fields.value` that `float` refuses with `e`.
  abbrev Refused : Dict Value → Exc → Type 0
  Refused fields e =
      (v : Value) × (lookup (codes "value") fields ≡ some v) × (py.to_float v ≡ err e)

  as_reading_raises : (r : Result ℕ) (e : Exc) → as_reading py r ≡ err e → r ≡ err e
  as_reading_raises (ok x) e h = cc
  as_reading_raises (err exc) e h = cc

  split_value_raises :
      (o : Option Value) (e : Exc)
      → split_value py o ≡ err e
      → (v : Value) × (o ≡ some v) × (py.to_float v ≡ err e)
  unfolding split_value
  split_value_raises none e h = cc
  split_value_raises (some null) e h = cc
  split_value_raises (some (int n)) e h = (int n, refl, as_reading_raises (py.to_float (int n)) e h)
  split_value_raises (some (float x)) e h =
      (float x, refl, as_reading_raises (py.to_float (float x)) e h)
  split_value_raises (some _) e h = cc

  with_value_raises :
      (tags fields : Dict Value) (ingested : ℕ) (config : PipelineConfig) (t : ℕ)
      (r : Result (Value × Value)) (e : Exc)
      → with_value py tags fields ingested config t r ≡ err e
      → r ≡ err e
  with_value_raises tags fields ingested config t (ok split) e h = cc
  with_value_raises tags fields ingested config t (err exc) e h = cc

  with_time_raises :
      (message tags fields : Dict Value) (now ingested : ℕ) (config : PipelineConfig) (r : Result ℕ)
      (e : Exc)
      → event_time py message now ≡ r
      → with_time py tags fields ingested config r ≡ err e
      → IsRecordError e ⊎ Refused fields e
  with_time_raises message tags fields now ingested config (ok t) e p h = inr (
      split_value_raises (lookup (codes "value") fields) e (
        with_value_raises tags fields ingested config t
          (split_value py (lookup (codes "value") fields)) e h))
  with_time_raises message tags fields now ingested config (err exc) e p h =
      inl
        (event_time_raises (lookup (codes "timestamp") message) now e (unfold event_time in p ∙ cc))

  abbrev pub Escapes : Dict Value → Exc → Type 0
  Escapes message e =
      (fields : Dict Value) × (dict_or_empty py (lookup (codes "fields") message) ≡ some fields)
      × Refused fields e

  with_dicts_raises :
      (message : Dict Value) (now ingested : ℕ) (config : PipelineConfig)
      (tags fields : Option (Dict Value)) (e : Exc)
      → dict_or_empty py (lookup (codes "fields") message) ≡ fields
      → with_dicts py message now ingested config tags fields ≡ err e
      → IsRecordError e ⊎ Escapes message e
  with_dicts_raises message now ingested config (some tags) (some fields) e p h =
      elim (with_time_raises message tags fields now ingested config (event_time py message now) e
        refl h) [ inl r ↦ inl r | inr x ↦ inr (fields, p, x) ]
  with_dicts_raises message now ingested config none fields e p h = inl (cc)
  with_dicts_raises message now ingested config (some tags) none e p h = inl (cc)

-- Where `float` and `fromtimestamp` raise only the classes that `_event_time` names, an exception of
-- `to_row` is a `RecordError`, or the message's `fields` hold a value on which `float` raised it.
pub to_row_raises :
    (py : Py) (named : TimestampErrors py) (v : Value) (config : PipelineConfig) (now ingested : ℕ)
    (e : Exc)
    → to_row py v config now ingested ≡ err e
    → IsRecordError e ⊎ ((fs : Fields) × (v ≡ obj fs) × Escapes py named (entries fs) e)
unfolding to_row
to_row_raises py named (obj fs) config now ingested e h =
    elim (with_dicts_raises py named (entries fs) now ingested config
      (dict_or_empty py (lookup (codes "tags") (entries fs)))
      (dict_or_empty py (lookup (codes "fields") (entries fs))) e refl h) [
        | inl r ↦ inl r
        | inr x ↦ inr (fs, refl, x)
      ]
to_row_raises py named _ config now ingested e h = inl (cc)
