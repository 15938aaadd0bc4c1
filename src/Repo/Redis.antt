-- ===== src/Repo/Redis.antt =====
-- What the services rely on of Redis, of pydantic's JSON and of the clock. `World` is all that is
-- outside the process.
use live_streaming_data_pipe.Base.{
  Text, text_eq, Option, none, some, List, ◌≡◌, ◌≢◌, [], if◌then◌else◌,
}
use live_streaming_data_pipe.Base.Int.{ℤ}
use live_streaming_data_pipe.Base.Exec.{Result, ok}
use live_streaming_data_pipe.Model.{PipelineConfig, PipelineState}

pub record Redis : Type 1 where
  pub World : Type 0
  pub get : Text → World → Option Text
  pub set : Text → Text → World → World
  -- `SET key value NX`
  pub set_nx : Text → Text → World → World
  pub delete : Text → World → World
  -- `INCR`: the new value of the counter
  pub incr : Text → World → ℤ × World
  -- `KEYS pipeline:*:config`
  pub config_keys : World → List Text
  pub publish : Text → Text → World → World
  -- `datetime.now(timezone.utc).isoformat()`
  pub utc_now_iso : World → Text × World
  -- `model_dump_json` and `model_validate_json`
  pub dump_config : PipelineConfig → Text
  pub load_config : Text → Result PipelineConfig
  pub dump_state : PipelineState → Text
  pub load_state : Text → Result PipelineState
  -- the JSON of a state event
  pub dump_event : PipelineState → Text → Text → Text
  pub get-set :
      (k j v : Text) (w : World) → get j (set k v w) ≡ (if text_eq k j then some v else get j w)
  pub get-delete :
      (k j : Text) (w : World) → get j (delete k w) ≡ (if text_eq k j then none else get j w)
  pub get-publish : (k c m : Text) (w : World) → get k (publish c m w) ≡ get k w
  pub get-utc_now_iso : (k : Text) (w : World) → get k (utc_now_iso w).1 ≡ get k w
  -- JSON is never an empty text, and a state reads back as it was written.
  pub dump_state_filled : (s : PipelineState) → dump_state s ≢ []
  pub load_state-dump_state : (s : PipelineState) → load_state (dump_state s) ≡ ok s
  pub dump_config_filled : (c : PipelineConfig) → dump_config c ≢ []
