-- ===== src/Provision/Drained.antt =====
-- On `wait_for_drain` of services/task_manager/task_manager/app/provisioning.py: what `True` says.
use live_streaming_data_pipe.Base.{
  ℕ, zero, suc, ◌+◌, ◌*◌, ◌≤◌, ◌≡◌, refl, ap, Text, Bool, true, false, Bool-cases, Option, none,
  some, inl, inr, List, [], ◌∷◌, All, leb, if◌then◌else◌, arith,
}
use live_streaming_data_pipe.Base.Int.{ℤ}
use live_streaming_data_pipe.Base.Exec.{Result, ok, err, Exec, continue, ◌>>=◌, ◌>>◌}
use live_streaming_data_pipe.Model.{PipelineConfig}
use live_streaming_data_pipe.Provision.{after_close, finally_do}
use live_streaming_data_pipe.Provision.Drain.{
  Offsets, second, offset_of, all_drained, read_offsets, if_time_left, after_sleep, after_read,
  rounds, or_endless, with_partitions, drain, wait_for_drain,
}

all_drained-All :
    (ends : ℕ → ℕ) (committed : ℕ → Option ℤ) (ps : List ℕ)
    → all_drained ends committed ps ≡ true
    → All (λ p. ends p ≤ offset_of (committed p)) ps
unfolding all_drained
all_drained-All ends committed [] h = tt
all_drained-All ends committed (p ∷ ps) h =
    elim (Bool-cases (leb (ends p) (offset_of (committed p)))) [
      | inl done ↦
          (ground (arith, done), all_drained-All ends committed ps (ground (arith, done, h)))
      | inr waiting ↦ absurd (ground (arith, waiting, h))
    ]

module _ {World : Type 0} (kafka : Offsets World) (topic : Text) where
  -- The world after a round that was not the last: the offsets read, the clock, and a sleep.
  abbrev after_round : List ℕ → World → World
  after_round ps w = (kafka.sleep 1 (kafka.time (read_offsets kafka topic ps w).1).1).1

  -- The second world is reached from the first by some rounds.
  pub data Rounds (ps : List ℕ) : World → World → Type 0 where
    none_yet : (w : World) → Rounds ps w w
    one_more : (w v : World) → Rounds ps (after_round ps w) v → Rounds ps w v

  -- After some rounds from the world `w` the offsets were read, and the group had committed each of the
  -- partitions up to its end.
  pub record Caught (ps : List ℕ) (w : World) : Type 0 where
    pub at : World
    pub reached : Rounds ps w at
    pub ends : ℕ → ℕ
    pub committed : ℕ → Option ℤ
    pub was_read : (read_offsets kafka topic ps at).0 ≡ ok (ends, committed)
    pub caught_up : All (λ p. ends p ≤ offset_of (committed p)) ps

  -- In the world `w` the topic had no partition, or the group then caught up with all that it had.
  pub data Drained (w : World) : Type 0 where
    no_topic : kafka.partitions_for_topic topic w ≡ none → Drained w
    no_partition : kafka.partitions_for_topic topic w ≡ some [] → Drained w
    caught :
        (p : ℕ) (ps : List ℕ)
        → kafka.partitions_for_topic topic w ≡ some (p ∷ ps)
        → Caught (p ∷ ps) (kafka.time w).1
        → Drained w

  Caught-after_round : (ps : List ℕ) (w : World) → Caught ps (after_round ps w) → Caught ps w
  Caught-after_round ps w c = record {
    at = c.at;
    reached = one_more w c.at c.reached;
    ends = c.ends;
    committed = c.committed;
    was_read = c.was_read;
    caught_up = c.caught_up;
  }

  after_read-Caught :
      (more : World → Option (Result Bool × World)) (deadline : ℕ) (ps : List ℕ) (w v : World)
      (r : Result ((ℕ → ℕ) × (ℕ → Option ℤ)))
      → (read_offsets kafka topic ps w).0 ≡ r
      → ((u z : World) → more u ≡ some (ok true, z) → Caught ps u)
      → after_read kafka more deadline ps (r, (read_offsets kafka topic ps w).1) ≡ some (ok true, v)
      → Caught ps w
  after_read-Caught more deadline ps w v (err e) r f h = absurd cc
  after_read-Caught more deadline ps w v (ok (ends, committed)) r f h =
      by_test (all_drained ends committed ps) refl h
    where
      slept :
          (x : Result (Unit {0}) × World)
          → after_sleep kafka more x ≡ some (ok true, v)
          → Caught ps x.1
      slept (ok y, z) q = f z v q
      slept (err e, z) q = absurd cc

      by_time :
          (b : Bool) (z : World)
          → (if b then some (ok false, z) else after_sleep kafka more (kafka.sleep 1 z))
            ≡ some (ok true, v)
          → Caught ps (kafka.sleep 1 z).1
      by_time true z q = absurd cc
      by_time false z q = slept (kafka.sleep 1 z) q

      by_test :
          (b : Bool)
          → all_drained ends committed ps ≡ b
          → (if b
              then some (ok true, (read_offsets kafka topic ps w).1)
              else if_time_left kafka
                  (λ z. after_sleep kafka more (kafka.sleep 1 z))
                  deadline
                  (kafka.time (read_offsets kafka topic ps w).1))
            ≡ some (ok true, v)
          → Caught ps w
      by_test true d q = record {
        at = w;
        reached = none_yet w;
        ends = ends;
        committed = committed;
        was_read = r;
        caught_up = all_drained-All ends committed ps d;
      }
      by_test false d q =
          let told = kafka.time (read_offsets kafka topic ps w).1 in
          Caught-after_round ps w (by_time (leb deadline told.0) told.1 q)

  rounds-Caught :
      (fuel deadline : ℕ) (ps : List ℕ) (w v : World)
      → rounds kafka fuel deadline topic ps w ≡ some (ok true, v)
      → Caught ps w
  unfolding rounds
  rounds-Caught zero deadline ps w v h = absurd cc
  rounds-Caught (suc fuel) deadline ps w v h =
      after_read-Caught (rounds kafka fuel deadline topic ps) deadline ps w v
        (read_offsets kafka topic ps w).0 refl (λ u z. rounds-Caught fuel deadline ps u z) h

  or_endless-Caught :
      (w : World) (o : Option (Result Bool × World)) (ps : List ℕ)
      → ((v : World) → o ≡ some (ok true, v) → Caught ps w)
      → (or_endless kafka w o).0 ≡ ok true
      → Caught ps w
  or_endless-Caught w none ps f h = absurd cc
  or_endless-Caught w (some (r, v)) ps f h = f v (ap (λ (x : Result Bool). some (x, v)) h)

  partitions-Drained :
      (timeout_s : ℕ) (o : Option (List ℕ)) (w : World)
      → kafka.partitions_for_topic topic w ≡ o
      → (with_partitions kafka timeout_s topic o w).0 ≡ ok true
      → Drained w
  partitions-Drained timeout_s none w e h = no_topic e
  partitions-Drained timeout_s (some []) w e h = no_partition e
  partitions-Drained timeout_s (some (p ∷ ps)) w e h =
      let (t, w') = kafka.time w in
      caught p ps e (
        or_endless-Caught w'
          (rounds kafka (suc timeout_s) (t + timeout_s * second) topic (p ∷ ps) w') (p ∷ ps)
          (λ v. rounds-Caught (suc timeout_s) (t + timeout_s * second) (p ∷ ps) w' v) h)

  -- A call that ends with `True` has come to its last part.
  continued :
      {A : Type 0} (r : Result A) (f : A → Exec World Bool) (w : World)
      → (continue r f w).0 ≡ ok true
      → (a : A) × ((f a w).0 ≡ ok true)
  continued (ok a) f w h = (a, h)
  continued (err e) f w h = absurd cc

  drain-Drained :
      (timeout_s : ℕ) (w : World)
      → (drain kafka timeout_s topic w).0 ≡ ok true
      → Drained (kafka.topics w).1
  unfolding ◌>>=◌
  drain-Drained timeout_s w h =
      let w' = (kafka.topics w).1 in
      let (u, q) =
        continued (kafka.topics w).0
          (λ u v. with_partitions kafka timeout_s topic (kafka.partitions_for_topic topic v) v) w'
          h in
      partitions-Drained timeout_s (kafka.partitions_for_topic topic w') w' refl q

  after_close-ok :
      (r : Result Bool) (x : Result (Unit {0}) × World)
      → (after_close r x).0 ≡ ok true
      → r ≡ ok true
  after_close-ok r (ok u, w) h = h
  after_close-ok r (err e, w) h = absurd cc

-- If `wait_for_drain` returns `True`, then in the world in which the clients were started and the metadata
-- fetched the topic had no partition, or after some of the rounds of the loop from there each
-- partition that it had was committed by the pool's group up to its end, as the offsets were read.
pub wait_for_drain-Drained :
    {World : Type 0} (kafka : Offsets World) (config : PipelineConfig) (timeout_s : ℕ) (w : World)
    → (wait_for_drain kafka config timeout_s w).0 ≡ ok true
    → Drained kafka config.topic (kafka.topics ((kafka.consumer_start >> kafka.admin_start) w).1).1
unfolding wait_for_drain ◌>>=◌
wait_for_drain-Drained kafka config timeout_s w h =
    let topic = config.topic in
    let (u1, h1) =
      continued kafka topic
        (continue (kafka.consumer_start w).0 (λ u. kafka.admin_start) (kafka.consumer_start w).1).0
        (λ u. finally_do (drain kafka timeout_s topic) (kafka.admin_close >> kafka.consumer_stop))
        (continue (kafka.consumer_start w).0 (λ u. kafka.admin_start) (kafka.consumer_start w).1).1
        h in
    let w1 =
      (continue (kafka.consumer_start w).0 (λ u. kafka.admin_start) (kafka.consumer_start w).1).1 in
    drain-Drained kafka topic timeout_s w1 (
      after_close-ok kafka topic (drain kafka timeout_s topic w1).0
        ((kafka.admin_close >> kafka.consumer_stop) (drain kafka timeout_s topic w1).1) h1)
