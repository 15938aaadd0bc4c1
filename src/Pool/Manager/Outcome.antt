-- ===== src/Pool/Manager/Outcome.antt =====
-- On `execute` of services/consumer_pool/app/clickhouse_manager.py: the world that it leaves.
use live_streaming_data_pipe.Base.{
  ℕ, zero, suc, ◌*◌, min, ◌≡◌, Bool, true, false, Bool-cases, inl, inr, ◌∷◌,
}
use live_streaming_data_pipe.Base.Exec.{Result, ok, err, Exec}
use live_streaming_data_pipe.Pool.Manager.{
  Manager, connected, get_client, call, attempt, last_failure, retry, retry_if, execute_from,
  execute, is_retryable, max_backoff, max_retries, base_backoff,
}

module _ {W : Type 0} {A : Type 0} (connect : Exec W (Unit {0})) (fn : Exec W A) where
  module _ (P : W → Type 0) (keep_connect : (w : W) → P w → P (connect w).1)
      (keep_fn : (w : W) → P w → P (fn w).1) where
    connected_keeps :
        (m : Manager W) (r : Result (Unit {0}) × W) → P r.1 → P (connected connect m r).1.world
    connected_keeps m (ok u, w) h = h
    connected_keeps m (err e, w) h = h

    get_client_keeps : (m : Manager W) → P m.world → P (get_client connect m).1.world
    unfolding get_client
    get_client_keeps m h = elim (Bool-cases m.client) [
      | inl c ↦ simp c h
      | inr c ↦ simp c (connected_keeps m (connect m.world) (keep_connect m.world h))
    ]

    call_keeps : (r : Result (Unit {0}) × Manager W) → P r.1.world → P (call connect fn r).1.world
    call_keeps (ok u, m) h = keep_fn m.world h
    call_keeps (err e, m) h = h

    pub attempt_keeps : (m : Manager W) → P m.world → P (attempt connect fn m).1.world
    unfolding attempt
    attempt_keeps m h = call_keeps (get_client connect m) (get_client_keeps m h)

    last_failure_keeps :
        (r : Result A × Manager W) → P r.1.world → P (last_failure connect fn r).1.world
    last_failure_keeps (ok a, m) h = h
    last_failure_keeps (err e, m) h = elim (Bool-cases (is_retryable e.kind)) [
      | inl t ↦ rw t h
      | inr t ↦ rw t h
    ]

    retry_keeps :
        (again : ℕ → Manager W → Result A × Manager W)
        → ((b : ℕ) (m : Manager W) → P m.world → P (again b m).1.world)
        → (b : ℕ) (r : Result A × Manager W) → P r.1.world
        → P (retry connect fn again b r).1.world
    retry_keeps again k b (ok a, m) h = h
    retry_keeps again k b (err e, m) h = go (is_retryable e.kind)
      where
        go : (t : Bool) → P (retry_if connect fn again b e m t).1.world
        go true = k (min (b * 2) max_backoff) (record m { client = false; slept = b ∷ m.slept }) h
        go false = h

    execute_from_keeps :
        (left b : ℕ) (m : Manager W) → P m.world → P (execute_from connect fn left b m).1.world
    unfolding execute_from
    execute_from_keeps zero b m h = last_failure_keeps (attempt connect fn m) (attempt_keeps m h)
    execute_from_keeps (suc left) b m h =
        retry_keeps (execute_from connect fn left) (execute_from_keeps left) b
          (attempt connect fn m) (attempt_keeps m h)

    -- What the two outside calls keep, a call through the manager keeps.
    pub execute_keeps : (m : Manager W) → P m.world → P (execute connect fn m).1.world
    unfolding execute
    execute_keeps = execute_from_keeps max_retries base_backoff

  module _ (Q : A → W → Type 0) (done : (w : W) (a : A) → (fn w).0 ≡ ok a → Q a (fn w).1) where
    call_done :
        (r : Result (Unit {0}) × Manager W) (a : A)
        → (call connect fn r).0 ≡ ok a
        → Q a (call connect fn r).1.world
    call_done (ok u, m) a h = done m.world a h
    call_done (err e, m) a h = cc

    pub attempt_done :
        (m : Manager W) (a : A)
        → (attempt connect fn m).0 ≡ ok a
        → Q a (attempt connect fn m).1.world
    unfolding attempt
    attempt_done m = call_done (get_client connect m)

    last_failure_done :
        (r : Result A × Manager W) (a : A)
        → (r.0 ≡ ok a → Q a r.1.world)
        → (last_failure connect fn r).0 ≡ ok a
        → Q a (last_failure connect fn r).1.world
    last_failure_done (ok b, m) a k h = k h
    last_failure_done (err e, m) a k h = cc

    retry_done :
        (again : ℕ → Manager W → Result A × Manager W)
        → ((b : ℕ) (m : Manager W) (a : A) → (again b m).0 ≡ ok a → Q a (again b m).1.world)
        → (b : ℕ) (r : Result A × Manager W) (a : A) → (r.0 ≡ ok a → Q a r.1.world)
        → (retry connect fn again b r).0 ≡ ok a
        → Q a (retry connect fn again b r).1.world
    retry_done again k b (ok c, m) a j h = j h
    retry_done again k b (err e, m) a j h = go (is_retryable e.kind) h
      where
        go :
            (t : Bool)
            → (retry_if connect fn again b e m t).0 ≡ ok a
            → Q a (retry_if connect fn again b e m t).1.world
        go true g =
            k (min (b * 2) max_backoff) (record m { client = false; slept = b ∷ m.slept }) a g
        go false g = cc

    execute_from_done :
        (left b : ℕ) (m : Manager W) (a : A)
        → (execute_from connect fn left b m).0 ≡ ok a
        → Q a (execute_from connect fn left b m).1.world
    unfolding execute_from
    execute_from_done zero b m a h = last_failure_done (attempt connect fn m) a (attempt_done m a) h
    execute_from_done (suc left) b m a h =
        retry_done (execute_from connect fn left) (execute_from_done left) b (attempt connect fn m)
          a (attempt_done m a) h

    -- If the call through the manager returns, then `fn` returned in the world that is left.
    pub execute_done :
        (m : Manager W) (a : A)
        → (execute connect fn m).0 ≡ ok a
        → Q a (execute connect fn m).1.world
    unfolding execute
    execute_done = execute_from_done max_retries base_backoff
