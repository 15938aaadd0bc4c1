-- ===== src/Repo/Keys.antt =====
-- services/task_manager/common/app_common/redis_keys.py.
use mathlib.Core.List.{reverse, reverse-append, append_cancel_left, append_cancel_right}
use live_streaming_data_pipe.Base.{ℕ, ◌≡◌, ◌≢◌, ap, sym, ◌∙◌, Text, codes, [], ◌∷◌, ◌++◌, arith}

abbrev pub events_channel : Text
events_channel = codes "pipeline_state_events"

unfoldable pub pipeline_config_key : Text → Text
pipeline_config_key pid = codes "pipeline:" ++ (pid ++ codes ":config")

unfoldable pub pipeline_state_key : Text → Text
pipeline_state_key pid = codes "pipeline:" ++ (pid ++ codes ":state")

unfoldable pub collection_counter_key : Text → Text
collection_counter_key user_id = codes "user:" ++ (user_id ++ codes ":collection_counter")

unfoldable pub leader_lock_key : Text → Text
leader_lock_key service = codes "leader_lock:" ++ service

-- The keys of two pipelines differ.
pub pipeline_state_key-injective :
    (p q : Text) → pipeline_state_key p ≡ pipeline_state_key q → p ≡ q
unfolding pipeline_state_key
pipeline_state_key-injective p q e =
    append_cancel_right p q (codes ":state")
      (append_cancel_left (codes "pipeline:") (p ++ codes ":state") (q ++ codes ":state") e)

pub pipeline_config_key-injective :
    (p q : Text) → pipeline_config_key p ≡ pipeline_config_key q → p ≡ q
unfolding pipeline_config_key
pipeline_config_key-injective p q e =
    append_cancel_right p q (codes ":config")
      (append_cancel_left (codes "pipeline:") (p ++ codes ":config") (q ++ codes ":config") e)

abbrev first : Text → ℕ
first [] = 0
first (c ∷ s) = c

-- No state key is a config key: their last letters differ.
pub pipeline_state_key-ne-config_key : (p q : Text) → pipeline_state_key p ≢ pipeline_config_key q
unfolding pipeline_state_key pipeline_config_key
pipeline_state_key-ne-config_key p q e =
    let tails : p ++ codes ":state" ≡ q ++ codes ":config" =
      append_cancel_left (codes "pipeline:") (p ++ codes ":state") (q ++ codes ":config") e in
    let turned : reverse (codes ":state") ++ reverse p ≡ reverse (codes ":config") ++ reverse q =
      sym (reverse-append p (codes ":state"))
      ∙ ap reverse tails
      ∙ reverse-append q (codes ":config") in
    let heads : ◌≡◌ {A = ℕ} b'e' b'g' = ap first turned in absurd (omega arith)
