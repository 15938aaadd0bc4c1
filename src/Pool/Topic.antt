-- ===== src/Pool/Topic.antt =====
-- services/consumer_pool/app/main.py: the naming contract of topics,
-- `^pipeline\.(?P<pipeline_id>.+)\.events$`. `.` matches no newline, and `$` lets one pass at the end.
pub mod RoundTrip
use mathlib.Core.List.{reverse}
use live_streaming_data_pipe.Base.{
  Text, codes, Bool, true, false, Option, none, some, [], ◌∷◌, ◌&&◌, ◌==◌, ◌++◌, if◌then◌else◌,
}

-- what follows the prefix, if the text has it
unfoldable pub strip_prefix : Text → Text → Option Text
strip_prefix [] s = some s
strip_prefix (c ∷ p) [] = none
strip_prefix (c ∷ p) (d ∷ s) = if c == d then strip_prefix p s else none

abbrev pub turn : Option Text → Option Text
turn none = none
turn (some s) = some (reverse s)

unfoldable pub strip_suffix : Text → Text → Option Text
unfolding strip_prefix
strip_suffix p s = turn (strip_prefix (reverse p) (reverse s))

unfoldable pub no_newline : Text → Bool
no_newline [] = true
no_newline (c ∷ s) = if c == 10 then false else no_newline s

-- `.+`
abbrev pub some_line : Option Text → Option Text
some_line none = none
some_line (some []) = none
some_line (some (c ∷ s)) = if no_newline (c ∷ s) then some (c ∷ s) else none

abbrev pub first_of_two : Option Text → Option Text → Option Text
first_of_two (some s) other = some s
first_of_two none other = other

-- `(.+)\.events$`
unfoldable pub before_events : Option Text → Option Text
before_events none = none
before_events (some rest) =
    first_of_two (some_line (strip_suffix (codes ".events") rest))
      (some_line (strip_suffix (codes ".events" ++ 10 ∷ []) rest))

-- `match.group("pipeline_id")`, where the topic matches
unfoldable pub topic_pipeline_id : Text → Option Text
topic_pipeline_id topic = before_events (strip_prefix (codes "pipeline.") topic)

-- `f"pipeline.{pid}.events"`, the topic that the task manager gives a pipeline by default
unfoldable pub default_topic : Text → Text
default_topic pid = codes "pipeline." ++ (pid ++ codes ".events")
