-- ===== src/Pool/Topic/RoundTrip.antt =====
-- On the topics of services/consumer_pool/app/main.py and of the task manager: the id in a topic.
use mathlib.Core.List.{reverse, reverse-append, reverse-reverse}
use live_streaming_data_pipe.Base.{ℕ}
use live_streaming_data_pipe.Base.{◌≡◌, refl, Text, codes, true, some, [], ◌∷◌, ◌++◌, arith}
use live_streaming_data_pipe.Pool.Topic.{
  strip_prefix, strip_suffix, no_newline, before_events, topic_pipeline_id, default_topic,
}

strip_prefix-append : (p s : Text) → strip_prefix p (p ++ s) ≡ some s
unfolding strip_prefix
strip_prefix-append [] s = refl
strip_prefix-append (c ∷ p) s = ground (arith, strip_prefix-append p s)

strip_suffix-append : (s p : Text) → strip_suffix p (s ++ p) ≡ some s
unfolding strip_suffix
strip_suffix-append s p =
    rw (reverse-append s p, strip_prefix-append (reverse p) (reverse s), reverse-reverse s)

-- The default topic of a non-empty id of one line matches the pool's pattern and yields that id.
pub topic_pipeline_id-default_topic :
    (c : ℕ) (s : Text)
    → no_newline (c ∷ s) ≡ true
    → topic_pipeline_id (default_topic (c ∷ s)) ≡ some (c ∷ s)
unfolding topic_pipeline_id default_topic
topic_pipeline_id-default_topic c s h =
    rw (strip_prefix-append (codes "pipeline.") ((c ∷ s) ++ codes ".events"))
      (unfold before_events in rw (strip_suffix-append (c ∷ s) (codes ".events"), h))
