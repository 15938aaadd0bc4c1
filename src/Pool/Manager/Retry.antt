-- ===== src/Pool/Manager/Retry.antt =====
-- On `execute` of services/consumer_pool/app/clickhouse_manager.py: its retries and its sleeps.
use mathlib.Core.Path.{subst}
use live_streaming_data_pipe.Base.{
  ℕ, zero, suc, ◌*◌, ◌≤◌, min, ◌≡◌, refl, ap, Bool, true, false, Bool-cases, inl, inr, ◌⊎◌, List,
  [], ◌∷◌, arith,
}
use live_streaming_data_pipe.Base.Exec.{Exc, Result, ok, err, Exec}
use live_streaming_data_pipe.Pool.Manager.{
  Manager, connected, get_client, call, attempt, last_failure, retry, retry_if, execute_from,
  execute, is_retryable, max_backoff, max_retries, base_backoff,
}

-- The sleeps of `n` retries from `backoff` on, the last one first.
unfoldable pub schedule : ℕ → ℕ → List ℕ → List ℕ
schedule zero backoff before = before
schedule (suc n) backoff before = schedule n (min (backoff * 2) max_backoff) (backoff ∷ before)

module _ {W : Type 0} {A : Type 0} (connect : Exec W (Unit {0})) (fn : Exec W A) where
  connected-slept :
      (m : Manager W) (r : Result (Unit {0}) × W) → (connected connect m r).1.slept ≡ m.slept
  connected-slept m (ok u, w) = refl
  connected-slept m (err e, w) = refl

  get_client-slept : (m : Manager W) → (get_client connect m).1.slept ≡ m.slept
  unfolding get_client
  get_client-slept m = elim (Bool-cases m.client) [
    | inl c ↦ simp c refl
    | inr c ↦ simp c (connected-slept m (connect m.world))
  ]

  call-slept : (r : Result (Unit {0}) × Manager W) → (call connect fn r).1.slept ≡ r.1.slept
  call-slept (ok u, m) = refl
  call-slept (err e, m) = refl

  attempt-slept : (m : Manager W) → (attempt connect fn m).1.slept ≡ m.slept
  unfolding attempt
  attempt-slept m = rw call-slept (get_client-slept m)

  -- What the loop with `left` further attempts has done, from the sleeps `before` on.
  pub record Retried (left backoff : ℕ) (before : List ℕ) (r : Result A × Manager W) : Type 0 where
    pub retries : ℕ
    pub within : retries ≤ left
    pub slept : r.1.slept ≡ schedule retries backoff before
    pub gave_up :
        (e : Exc)
        → r.0 ≡ err e
        → (is_retryable e.kind ≡ false) ⊎ ((retries ≡ left) × (r.1.client ≡ false))

  last_failure-Retried :
      (backoff : ℕ) (r : Result A × Manager W)
      → Retried 0 backoff r.1.slept (last_failure connect fn r)
  unfolding schedule
  last_failure-Retried backoff (ok a, m) = record {
    retries = 0;
    within = omega arith;
    slept = refl;
    gave_up = λ e h. cc;
  }
  last_failure-Retried backoff (err x, m) = record {
    retries = 0;
    within = omega arith;
    slept = ground arith;
    gave_up = λ e h. ground arith;
  }

  retry-Retried :
      (left : ℕ) (again : ℕ → Exec (Manager W) A)
      → ((b : ℕ) (m : Manager W) → Retried left b m.slept (again b m))
      → (b : ℕ) (r : Result A × Manager W)
      → Retried (suc left) b r.1.slept (retry connect fn again b r)
  unfolding schedule
  retry-Retried left again k b (ok a, m) = record {
    retries = 0;
    within = omega arith;
    slept = refl;
    gave_up = λ e h. cc;
  }
  retry-Retried left again k b (err x, m) = go (is_retryable x.kind) refl
    where
      next :
          Retried left
            (min (b * 2) max_backoff)
            (b ∷ m.slept)
            (again (min (b * 2) max_backoff) (record m { client = false; slept = b ∷ m.slept }))
      next = k (min (b * 2) max_backoff) (record m { client = false; slept = b ∷ m.slept })

      go :
          (t : Bool)
          → is_retryable x.kind ≡ t
          → Retried (suc left) b m.slept (retry_if connect fn again b x m t)
      go true q = record {
        retries = suc next.retries;
        within = omega (arith, next.within);
        slept = next.slept;
        gave_up = λ e h. elim (next.gave_up e h) [
          | inl plain ↦ inl plain
          | inr (n, c) ↦ inr (ap suc n, c)
        ];
      }
      go false q = record {
        retries = 0;
        within = omega arith;
        slept = refl;
        gave_up = λ e h. ground arith;
      }

  execute_from-Retried :
      (left backoff : ℕ) (m : Manager W)
      → Retried left backoff m.slept (execute_from connect fn left backoff m)
  unfolding execute_from
  execute_from-Retried zero backoff m =
      subst (λ before. Retried 0 backoff before (execute_from connect fn 0 backoff m))
        (attempt-slept m) (last_failure-Retried backoff (attempt connect fn m))
  execute_from-Retried (suc left) backoff m =
      subst
        (λ before. Retried (suc left) backoff before (execute_from connect fn (suc left) backoff m))
        (attempt-slept m)
        (retry-Retried left (execute_from connect fn left) (execute_from-Retried left) backoff
          (attempt connect fn m))

  -- A call through the manager makes at most six retries, sleeps the doubling schedule from one second,
  -- capped at a minute, once before each, and raises only what is not retryable, or what is left after
  -- all six retries, with the client dropped.
  pub execute-Retried :
      (m : Manager W) → Retried max_retries base_backoff m.slept (execute connect fn m)
  unfolding execute
  execute-Retried = execute_from-Retried max_retries base_backoff

-- The sleeps after all six retries, in milliseconds.
full_schedule :
    schedule max_retries base_backoff [] ≡ 32_000 ∷ 16_000 ∷ 8_000 ∷ 4_000 ∷ 2_000 ∷ 1_000 ∷ []
unfolding schedule
full_schedule = refl
