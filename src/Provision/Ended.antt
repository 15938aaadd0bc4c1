-- ===== src/Provision/Ended.antt =====
-- On `wait_for_drain` of services/task_manager/task_manager/app/provisioning.py: its loop ends.
use live_streaming_data_pipe.Base.{
  ℕ, zero, suc, ◌+◌, ◌*◌, ◌≤◌, ◌<◌, ◌≡◌, refl, Text, Bool, true, false, Bool-cases, Option, some,
  inl, inr, List, leb, arith,
}
use live_streaming_data_pipe.Base.Int.{ℤ}
use live_streaming_data_pipe.Base.Exec.{Result, ok, err, continue, ◌>>=◌}
use live_streaming_data_pipe.Provision.Drain.{
  Offsets, second, all_drained, read_offsets, after_sleep, after_read, rounds,
}

-- The clock of the event loop: it does not go back, and a sleep of some seconds takes them.
pub record Clock {World : Type 0} (kafka : Offsets World) : Type 0 where
  pub now : World → ℕ
  pub told : (w : World) → now w ≤ (kafka.time w).0
  pub after_told : (w : World) → (kafka.time w).0 ≤ now (kafka.time w).1
  pub after_ends : (t : Text) (ps : List ℕ) (w : World) → now w ≤ now (kafka.end_offsets t ps w).1
  pub after_group :
      (t : Text) (ps : List ℕ) (w : World) → now w ≤ now (kafka.group_offsets t ps w).1
  pub after_sleep :
      (s : ℕ) (w : World)
      → (kafka.sleep s w).0 ≡ ok tt
      → now w + s * second ≤ now (kafka.sleep s w).1

module _ {World : Type 0} (kafka : Offsets World) (clock : Clock kafka) where
  read_offsets-now :
      (topic : Text) (ps : List ℕ) (w : World)
      → clock.now w ≤ clock.now (read_offsets kafka topic ps w).1
  unfolding ◌>>=◌
  read_offsets-now topic ps w =
      by_ends (kafka.end_offsets topic ps w).0 (kafka.end_offsets topic ps w).1
        (clock.after_ends topic ps w)
    where
      by_group :
          (ends : ℕ → ℕ) (r : Result (ℕ → Option ℤ)) (v : World)
          → clock.now w ≤ clock.now v
          → clock.now w
            ≤ clock.now
                (continue {W = World} {B = (ℕ → ℕ) × (ℕ → Option ℤ)} r
                  (λ c u. (ok (ends, c), u))
                  v).1
      by_group ends (ok c) v h = h
      by_group ends (err e) v h = h

      by_ends :
          (r : Result (ℕ → ℕ)) (v : World)
          → clock.now w ≤ clock.now v
          → clock.now w
            ≤ clock.now
                (continue {W = World} {B = (ℕ → ℕ) × (ℕ → Option ℤ)} r
                  (λ ends u.
                    continue {W = World}
                      (kafka.group_offsets topic ps u).0
                      (λ c u. (ok (ends, c), u))
                      (kafka.group_offsets topic ps u).1)
                  v).1
      by_ends (ok ends) v h =
          by_group ends (kafka.group_offsets topic ps v).0 (kafka.group_offsets topic ps v).1
            (omega (arith, h, clock.after_group topic ps v))
      by_ends (err e) v h = h

  abbrev Ends : Option (Result Bool × World) → Type 0
  Ends o = (x : Result Bool × World) × (o ≡ some x)

  after_sleep-Ends :
      (more : World → Option (Result Bool × World)) (x : Result (Unit {0}) × World)
      → (x.0 ≡ ok tt → Ends (more x.1))
      → Ends (after_sleep kafka more x)
  after_sleep-Ends more (ok u, w) h = h refl
  after_sleep-Ends more (err e, w) h = ((err e, w), refl)

  after_read-Ends :
      (more : World → Option (Result Bool × World)) (deadline : ℕ) (ps : List ℕ)
      (x : Result ((ℕ → ℕ) × (ℕ → Option ℤ)) × World)
      → ((v : World)
          → clock.now x.1 + second ≤ clock.now v
          → (kafka.time x.1).0 < deadline
          → Ends (more v))
      → Ends (after_read kafka more deadline ps x)
  after_read-Ends more deadline ps (err e, w) h = ((err e, w), refl)
  after_read-Ends more deadline ps (ok (ends, committed), w) h =
      elim (Bool-cases (all_drained ends committed ps)) [
        | inl drained ↦ rw drained ((ok true, w), refl)
        | inr waiting ↦ rw waiting (elim (Bool-cases (leb deadline (kafka.time w).0)) [
          | inl late ↦ rw late ((ok false, (kafka.time w).1), refl)
          | inr early ↦
              let v = (kafka.time w).1 in
              rw early (
                after_sleep-Ends more (kafka.sleep 1 v) (λ slept.
                  h (kafka.sleep 1 v).1
                    (omega (arith, clock.told w, clock.after_told w, clock.after_sleep 1 v slept))
                    (ground (arith, early))))
        ])
      ]

  -- The loop of `wait_for_drain` ends: one round for each second until the deadline, and one more, are
  -- enough, if the clock does not go back and a sleep of a second takes a second.
  pub rounds-Ends :
      (fuel deadline : ℕ) (topic : Text) (ps : List ℕ) (w : World)
      → deadline ≤ clock.now w + fuel * second
      → (x : Result Bool × World) × (rounds kafka (suc fuel) deadline topic ps w ≡ some x)
  unfolding rounds
  rounds-Ends zero deadline topic ps w h =
      let read = read_offsets kafka topic ps w in
      after_read-Ends (rounds kafka zero deadline topic ps) deadline ps read (λ v later early.
        absurd (omega (arith, h, early, read_offsets-now topic ps w, clock.told read.1)))
  rounds-Ends (suc fuel) deadline topic ps w h =
      after_read-Ends (rounds kafka (suc fuel) deadline topic ps) deadline ps
        (read_offsets kafka topic ps w)
        (λ v later early.
          rounds-Ends fuel deadline topic ps v
            (omega (arith, h, later, read_offsets-now topic ps w)))
