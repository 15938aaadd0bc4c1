-- ===== src/Provision/Drain.antt =====
-- `wait_for_drain` of services/task_manager/task_manager/app/provisioning.py, over the Kafka clients and
-- the clock of the event loop. A time is a count of microseconds.
use live_streaming_data_pipe.Base.{
  ℕ, zero, suc, ◌+◌, ◌*◌, Text, codes, Bool, true, false, Option, none, some, List, [], ◌∷◌, leb,
  if◌then◌else◌,
}
use live_streaming_data_pipe.Base.Int.{ℤ, pos, negsuc}
use live_streaming_data_pipe.Base.Exec.{Exc, other, Result, ok, err, Exec, pure, ◌>>=◌, ◌>>◌}
use live_streaming_data_pipe.Model.{PipelineConfig}
use live_streaming_data_pipe.Provision.{finally_do}

pub record Offsets (World : Type 0) : Type 0 where
  pub consumer_start : Exec World (Unit {0})
  pub admin_start : Exec World (Unit {0})
  -- `topics`, which fetches the metadata, and then `partitions_for_topic`
  pub topics : Exec World (Unit {0})
  pub partitions_for_topic : Text → World → Option (List ℕ)
  -- the end of each partition, and the offset that the pool's group has committed, if any
  pub end_offsets : Text → List ℕ → Exec World (ℕ → ℕ)
  pub group_offsets : Text → List ℕ → Exec World (ℕ → Option ℤ)
  pub time : World → ℕ × World
  pub sleep : ℕ → Exec World (Unit {0})
  pub admin_close : Exec World (Unit {0})
  pub consumer_stop : Exec World (Unit {0})

abbrev pub second : ℕ
second = 1_000_000

-- `max(getattr(committed.get(tp), "offset", 0), 0)`
abbrev pub offset_of : Option ℤ → ℕ
offset_of none = 0
offset_of (some (pos n)) = n
offset_of (some (negsuc n)) = 0

-- the `all(…)` of the loop
unfoldable pub all_drained : (ℕ → ℕ) → (ℕ → Option ℤ) → List ℕ → Bool
all_drained ends committed [] = true
all_drained ends committed (p ∷ ps) =
    let rest = all_drained ends committed ps in
    if leb (ends p) (offset_of (committed p)) then rest else false

module _ {World : Type 0} (kafka : Offsets World) where
  -- The two reads of a round.
  abbrev pub read_offsets : Text → List ℕ → Exec World ((ℕ → ℕ) × (ℕ → Option ℤ))
  read_offsets topic ps = kafka.end_offsets topic ps >>= λ ends.
      kafka.group_offsets topic ps >>= λ committed. pure (ends, committed)

  abbrev pub if_time_left :
      (World → Option (Result Bool × World)) → ℕ → ℕ × World → Option (Result Bool × World)
  if_time_left more deadline (t, w) = if leb deadline t then some (ok false, w) else more w

  abbrev pub after_sleep :
      (World → Option (Result Bool × World))
      → Result (Unit {0}) × World
      → Option (Result Bool × World)
  after_sleep more (ok u, w) = more w
  after_sleep more (err e, w) = some (err e, w)

  abbrev pub after_read :
      (World → Option (Result Bool × World))
      → ℕ
      → List ℕ
      → Result ((ℕ → ℕ) × (ℕ → Option ℤ)) × World
      → Option (Result Bool × World)
  after_read more deadline ps (ok (ends, committed), w) =
      if all_drained ends committed ps
      then some (ok true, w)
      else if_time_left (λ v. after_sleep more (kafka.sleep 1 v)) deadline (kafka.time w)
  after_read more deadline ps (err e, w) = some (err e, w)

  -- The `while True` of `wait_for_drain` on fuel: none where the fuel does not do.
  unfoldable pub rounds : ℕ → ℕ → Text → List ℕ → World → Option (Result Bool × World)
  unfolding all_drained ◌>>=◌
  rounds zero deadline topic ps w = none
  rounds (suc fuel) deadline topic ps w =
      after_read (rounds fuel deadline topic ps) deadline ps (read_offsets topic ps w)

  abbrev pub endless : Exc
  endless = record { kind = other; name = codes "endless"; message = [] }

  abbrev pub or_endless : World → Option (Result Bool × World) → Result Bool × World
  or_endless w none = (err endless, w)
  or_endless w (some x) = x

  abbrev pub from_time : ℕ → Text → List ℕ → ℕ × World → Result Bool × World
  from_time timeout_s topic ps (t, w) =
      or_endless w (rounds (suc timeout_s) (t + timeout_s * second) topic ps w)

  abbrev pub with_partitions : ℕ → Text → Option (List ℕ) → Exec World Bool
  with_partitions timeout_s topic none w = (ok true, w)
  with_partitions timeout_s topic (some []) w = (ok true, w)
  with_partitions timeout_s topic (some (p ∷ ps)) w =
      from_time timeout_s topic (p ∷ ps) (kafka.time w)

  -- the `try` of `wait_for_drain`
  abbrev pub drain : ℕ → Text → Exec World Bool
  drain timeout_s topic =
      kafka.topics >>= λ u w. with_partitions timeout_s topic (kafka.partitions_for_topic topic w) w

  -- `wait_for_drain`, with a timeout in whole seconds
  unfoldable pub wait_for_drain : PipelineConfig → ℕ → Exec World Bool
  unfolding rounds ◌>>=◌
  wait_for_drain config timeout_s =
      kafka.consumer_start
      >> kafka.admin_start
      >> finally_do (drain timeout_s config.topic) (kafka.admin_close >> kafka.consumer_stop)
