-- ===== src/Connector/Emitter.antt =====
-- `_LastRead` and `_Emitter` of connectors/opcua/connector.py. What a notification meets outside (the
-- clocks, and how printing ends) comes with it.
use live_streaming_data_pipe.Base.{
  ℕ, suc, Text, codes, Bool, Option, none, some, List, [], ◌∷◌, ◌++◌, if◌then◌else◌,
}
use live_streaming_data_pipe.Base.Dict.{lookup}
use live_streaming_data_pipe.Base.Exec.{Exc, other, Result, ok, err}
use live_streaming_data_pipe.Json.{Value, str, obj, entries, Py}
use live_streaming_data_pipe.Connector.Config.{and_then}

-- A status code of OPC UA.
pub record Status : Type 0 where
  pub is_good : Bool
  pub is_uncertain : Bool

-- What a notification holds: reading a part of it may raise.
pub record Notification : Type 0 where
  pub node_id : Result Text
  pub source_timestamp : Result (Option ℕ)
  pub status_code : Result Status
  pub val : Value

-- The clocks and the standard output when a notification is handled.
pub record Moment : Type 0 where
  pub utc_now : ℕ
  pub monotonic : ℕ
  pub printed : Result (Unit {0})

-- The `record` that is printed.
pub record Reading : Type 0 where
  pub pipeline_id : Text
  pub event_time : Text
  pub sequence : ℕ
  pub source : Text
  pub sensor : Text
  pub node_id : Text
  pub value : Value
  pub quality : Text

-- `_Emitter`, with its `_LastRead` and the readings that it has printed.
pub record Emitter : Type 0 where
  pub pipeline_id : Text
  pub node_names : Value
  pub last_read : Option ℕ
  pub sequence : ℕ
  pub out : List Reading

abbrev pub no_method : Text → Exc
no_method m = record { kind = other; name = codes "AttributeError"; message = m }

abbrev pub text_at : Option Value → Text → Result Text
text_at none d = ok d
text_at (some (str s)) d = ok s
text_at (some v) d = err (no_method (codes "lower"))

-- `node_names.get(node_id, node_id)`, where what is found must be a text
unfoldable pub name_of : Value → Text → Result Text
unfolding lookup entries
name_of (obj fs) node_id = text_at (lookup node_id (entries fs)) node_id
name_of v node_id = err (no_method (codes "get"))

abbrev pub quality_of : Status → Text
quality_of s =
    if s.is_good then codes "good" else if s.is_uncertain then codes "uncertain" else codes "bad"

abbrev pub time_of : Py → Option ℕ → ℕ → Text
time_of py none now = py.isoformat now
time_of py (some t) now = py.isoformat t

-- `touch`
abbrev pub touch : ℕ → Option ℕ → Option ℕ
touch now none = none
touch now (some at) = some now

-- `lower` is `str.lower`, and `dumps` is `json.dumps` of a record.
module _ (py : Py) (lower : Text → Text) (dumps : Reading → Result Text) where
  abbrev pub reading_named : Emitter → ℕ → Text → Option ℕ → Status → Value → ℕ → Text → Reading
  reading_named e n node_id t status v now name = record {
    pipeline_id = e.pipeline_id;
    event_time = time_of py t now;
    sequence = n;
    source = codes "opcua";
    sensor = lower name;
    node_id = node_id;
    value = v;
    quality = quality_of status;
  }

  -- The record, once the number `n` is taken.
  unfoldable pub reading_of : Emitter → ℕ → Text → Option ℕ → Status → Value → ℕ → Result Reading
  unfolding name_of
  reading_of e n node_id t status v now =
      and_then (name_of e.node_names node_id)
        λ name. ok (reading_named e n node_id t status v now name)

  -- what follows the record: `json.dumps`, `print` and `touch`
  abbrev pub written : Moment → Reading → Emitter → Result Text → Result (Unit {0}) → Emitter
  written m r e (ok line) (ok u) = record e {
    out = e.out ++ (r ∷ []);
    last_read = touch m.monotonic e.last_read;
  }
  written m r e (ok line) (err x) = e
  written m r e (err x) p = e

  abbrev pub with_reading : Moment → Emitter → Result Reading → Emitter
  with_reading m e (ok r) = written m r e (dumps r) m.printed
  with_reading m e (err x) = e

  abbrev pub numbered : Emitter → Emitter
  numbered e = record e { sequence = suc e.sequence }

  abbrev pub with_parts :
      Moment → Value → Emitter → Result Text → Result (Option ℕ) → Result Status → Emitter
  with_parts m v e (ok node_id) (ok t) (ok status) =
      with_reading m (numbered e) (reading_of e (suc e.sequence) node_id t status v m.utc_now)
  with_parts m v e (ok node_id) (ok t) (err x) = e
  with_parts m v e (ok node_id) (err x) s = e
  with_parts m v e (err x) t s = e

  -- `datachange_notification`: whatever raises is logged, and the notification is dropped.
  unfoldable pub datachange_notification : Moment → Notification → Emitter → Emitter
  unfolding reading_of
  datachange_notification m n e = with_parts m n.val e n.node_id n.source_timestamp n.status_code

  -- The notifications of a subscription, one after the other.
  unfoldable pub notified : List (Moment × Notification) → Emitter → Emitter
  unfolding datachange_notification
  notified [] e = e
  notified ((m, n) ∷ rest) e = notified rest (datachange_notification m n e)
