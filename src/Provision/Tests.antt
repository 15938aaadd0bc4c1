-- ===== src/Provision/Tests.antt =====
-- The theorems on the wait for a topic to drain, where the group commits one message a second.
use live_streaming_data_pipe.Base.{
  ℕ, ◌+◌, ◌*◌, ◌/◌, ◌≡◌, refl, codes, Bool, true, some, [], ◌∷◌, arith,
}
use live_streaming_data_pipe.Base.Int.{pos}
use live_streaming_data_pipe.Base.Exec.{Result, ok, ◌>>=◌, ◌>>◌}
use live_streaming_data_pipe.Repo.Tests.{p1_config}
use live_streaming_data_pipe.Provision.Drain.{Offsets, second, rounds, wait_for_drain}
use live_streaming_data_pipe.Provision.Ended.{Clock, rounds-Ends}
use live_streaming_data_pipe.Provision.Drained.{Drained, wait_for_drain-Drained}

-- The world is the time. Partition 0 has five messages.
abbrev slow : Offsets ℕ
slow = record {
  consumer_start = λ w. (ok tt, w);
  admin_start = λ w. (ok tt, w);
  topics = λ w. (ok tt, w);
  partitions_for_topic = λ t w. some (0 ∷ []);
  end_offsets = λ t ps w. (ok (λ p. 5), w);
  group_offsets = λ t ps w. (ok (λ p. some (pos (w / second))), w);
  time = λ w. (w, w);
  sleep = λ s w. (ok tt, w + s * second);
  admin_close = λ w. (ok tt, w);
  consumer_stop = λ w. (ok tt, w);
}

slow-Clock : Clock slow
slow-Clock = record {
  now = λ w. w;
  told = λ w. omega arith;
  after_told = λ w. omega arith;
  after_ends = λ t ps w. omega arith;
  after_group = λ t ps w. omega arith;
  after_sleep = λ s w h. omega arith;
}

drained_in_time : (wait_for_drain slow p1_config 30 (3 * second)).0 ≡ ok true
unfolding wait_for_drain ◌>>=◌
drained_in_time = refl

wait_for_drain-Drained_example :
    Drained slow p1_config.topic
      (slow.topics ((slow.consumer_start >> slow.admin_start) (3 * second)).1).1
wait_for_drain-Drained_example =
    wait_for_drain-Drained slow p1_config 30 (3 * second) drained_in_time

rounds-Ends_example :
    (x : Result Bool × ℕ) × (rounds slow 31 (33 * second) (codes "t") (0 ∷ []) (3 * second)
      ≡ some x)
unfolding slow-Clock
rounds-Ends_example =
    rounds-Ends slow slow-Clock 30 (33 * second) (codes "t") (0 ∷ []) (3 * second) (omega arith)
