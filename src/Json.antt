-- ===== src/Json.antt =====
-- JSON values as `json.loads` returns them, and what the program takes from Python's standard library
-- over values that the model does not look into.
pub mod Dumps
use live_streaming_data_pipe.Base.{ℕ, Text, Bool, [], ◌∷◌}
use live_streaming_data_pipe.Base.Int.{ℤ}
use live_streaming_data_pipe.Base.Dict.{Dict}
use live_streaming_data_pipe.Base.Exec.{Exc, Result}

mutual
  pub data Value : Type 0 where
    null : Value
    bool : Bool → Value
    int : ℤ → Value
    float : ℕ → Value
    str : Text → Value
    arr : Items → Value
    obj : Fields → Value

  pub data Items : Type 0 where
    nil : Items
    cons : Value → Items → Items

  pub data Fields : Type 0 where
    end : Fields
    field : Text → Value → Fields → Fields

unfoldable pub entries : Fields → Dict Value
entries end = []
entries (field k v fs) = (k, v) ∷ entries fs

-- What `json.loads` does on a text: a value, `json.JSONDecodeError`, or another exception (a plain
-- `ValueError` for an integer of more digits than the interpreter converts, `RecursionError`).
pub data Loaded : Type 0 where
  parsed : Value → Loaded
  decode_error : Loaded
  failed : Exc → Loaded

-- Python's standard library. An instant is a count of microseconds since `datetime.min`.
pub record Py : Type 0 where
  pub loads : Text → Loaded
  -- `float(v)` of a JSON value
  pub to_float : Value → Result ℕ
  pub float_is_zero : ℕ → Bool
  -- `datetime.fromtimestamp(x / 1000.0, tz=timezone.utc)`
  pub from_timestamp_ms : ℕ → Result ℕ
  pub isoformat : ℕ → Text
  -- `str(v)` and `repr(v)`
  pub to_str : Value → Text
  pub repr : Value → Text
