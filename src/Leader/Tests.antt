-- ===== src/Leader/Tests.antt =====
-- A run of two processes on the key of the leader lock.
use live_streaming_data_pipe.Base.{
  ℕ, ◌≡◌, ◌≢◌, text_eq, text_eq_iff, arith, codes, true, false, none, some, [],
}
use live_streaming_data_pipe.Leader.{Key, Lock, acquire, after_read, holds, release_read, tick}
use live_streaming_data_pipe.Leader.Safety.{
  Shared, Run, idle, acquires, release_reads, ticks, Rounds, rest, round, acquire-excludes,
}

abbrev first_lock : Lock
first_lock = record { identity = codes "host-a:1"; is_leader = false; renewing = false }

abbrev second_lock : Lock
second_lock = record { identity = codes "host-b:1"; is_leader = false; renewing = false }

abbrev key_with : ℕ → Key
key_with n = some (record { holder = codes "host-a:1"; left = n })

abbrev shared_with : ℕ → Shared
shared_with n = record { key = key_with n; deletes = [] }

-- The second process, which once held the lock and has not noticed that it lost it.
abbrev stale_lock : Lock
stale_lock = record second_lock { is_leader = true }

other_host : second_lock.identity ≢ first_lock.identity
other_host e =
    let same : text_eq second_lock.identity first_lock.identity ≡ true =
      (text_eq_iff second_lock.identity first_lock.identity).1 e in
    cc same

-- A second passes, the second process tries to acquire, and then starts to release.
one_round :
    Rounds
      (acquire first_lock none).0
      (record { key = (acquire first_lock none).1; deletes = [] })
      (shared_with 15)
unfolding acquire after_read holds tick release_read
one_round =
    round 1 0 (shared_with 15) (shared_with 14) (shared_with 14) (shared_with 15) (omega arith)
      (ticks 0 (shared_with 15) (shared_with 14) (
        acquires second_lock 0 (shared_with 14) (shared_with 14) (
          release_reads stale_lock 0 (shared_with 14) (shared_with 14) other_host
            (idle (shared_with 14)))))
      (idle (shared_with 14)) (rest (shared_with 15))

two_seconds : Run first_lock.identity 2 (shared_with 15) (shared_with 13)
unfolding tick
two_seconds =
    ticks 1 (shared_with 15) (shared_with 13)
      (ticks 0 (shared_with 14) (shared_with 13) (idle (shared_with 13)))

acquire-excludes_example : acquire second_lock (key_with 13) ≡ (second_lock, key_with 13)
acquire-excludes_example =
    acquire-excludes first_lock second_lock (shared_with 15) (shared_with 13) 2 one_round
      (omega arith) two_seconds
