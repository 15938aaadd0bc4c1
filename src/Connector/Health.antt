-- ===== src/Connector/Health.antt =====
-- `age_s` and the health endpoint of connectors/opcua/connector.py.
use live_streaming_data_pipe.Base.{ℕ, Text, codes, Bool, if◌then◌else◌}

-- Floats: `a - b`, `a <= b` and `round(a, 1)`.
pub record Floats : Type 0 where
  pub minus : ℕ → ℕ → ℕ
  pub le : ℕ → ℕ → Bool
  pub round_one : ℕ → ℕ

-- The answer of `do_GET`: its code and its JSON.
pub record Answer : Type 0 where
  pub code : ℕ
  pub status : Text
  pub seconds_since_last_read : ℕ
  pub threshold_seconds : ℕ

module _ (fl : Floats) where
  -- `age_s` at the time `now`
  abbrev pub age_s : ℕ → ℕ → ℕ
  age_s now at = fl.minus now at

  unfoldable pub do_get : ℕ → ℕ → ℕ → Answer
  do_get now at threshold =
      let age = age_s now at in
      let healthy = fl.le age threshold in
      record {
        code = if healthy then 200 else 503;
        status = if healthy then codes "ok" else codes "stale";
        seconds_since_last_read = fl.round_one age;
        threshold_seconds = threshold;
      }
