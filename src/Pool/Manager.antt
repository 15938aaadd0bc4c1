-- ===== src/Pool/Manager.antt =====
-- services/consumer_pool/app/clickhouse_manager.py: one client, reconnected and retried. Times are
-- in milliseconds. `slept` records the calls of `asyncio.sleep`, the last one first.
pub mod Retry
pub mod Outcome
use live_streaming_data_pipe.Base.{
  ℕ, zero, suc, ◌+◌, ◌*◌, min, Bool, true, false, List, [], ◌∷◌, if◌then◌else◌,
}
use live_streaming_data_pipe.Base.Exec.{
  Exc, ExcKind, clickhouse_error, connection_error, os_error, timeout_error, Result, ok, err, Exec,
}

pub record Manager (W : Type 0) : Type 0 where
  pub client : Bool
  pub slept : List ℕ
  pub world : W

-- The constructor's defaults, which the pool does not override.
abbrev pub max_retries : ℕ
max_retries = 6

abbrev pub base_backoff : ℕ
base_backoff = 1_000

abbrev pub max_backoff : ℕ
max_backoff = 60_000

-- `_RETRYABLE`
abbrev pub is_retryable : ExcKind → Bool
is_retryable clickhouse_error = true
is_retryable connection_error = true
is_retryable os_error = true
is_retryable timeout_error = true
is_retryable _ = false

module _ {W : Type 0} (connect : Exec W (Unit {0})) where
  -- what `_do_connect` leaves: the client is set only if it returned
  abbrev pub connected : Manager W → Result (Unit {0}) × W → Result (Unit {0}) × Manager W
  connected m (ok u, w) = (ok tt, record m { client = true; world = w })
  connected m (err e, w) = (err e, record m { world = w })

  -- `_get_client`
  unfoldable pub get_client : Exec (Manager W) (Unit {0})
  get_client m = if m.client then (ok tt, m) else connected m (connect m.world)

module _ {W : Type 0} {A : Type 0} (connect : Exec W (Unit {0})) (fn : Exec W A) where
  abbrev pub call : Result (Unit {0}) × Manager W → Result A × Manager W
  call (ok u, m) = let (r, w) = fn m.world in (r, record m { world = w })
  call (err e, m) = (err e, m)

  -- the body of `try`: get the client, then call `fn` with it
  unfoldable pub attempt : Exec (Manager W) A
  unfolding get_client
  attempt m = call (get_client connect m)

  -- The `except` clause after the last attempt, and the one after an earlier attempt.
  abbrev pub last_failure : Result A × Manager W → Result A × Manager W
  last_failure (ok a, m) = (ok a, m)
  last_failure (err e, m) = (err e, if is_retryable e.kind then record m { client = false } else m)

  abbrev pub retry_if :
      (ℕ → Manager W → Result A × Manager W) → ℕ → Exc → Manager W → Bool → Result A × Manager W
  retry_if again backoff e m true =
      again (min (backoff * 2) max_backoff) (record m { client = false; slept = backoff ∷ m.slept })
  retry_if again backoff e m false = (err e, m)

  abbrev pub retry :
      (ℕ → Manager W → Result A × Manager W) → ℕ → Result A × Manager W → Result A × Manager W
  retry again backoff (ok a, m) = (ok a, m)
  retry again backoff (err e, m) = retry_if again backoff e m (is_retryable e.kind)

  -- The loop with `left` attempts after this one.
  unfoldable pub execute_from : ℕ → ℕ → Exec (Manager W) A
  unfolding attempt
  execute_from zero backoff m = last_failure (attempt m)
  execute_from (suc left) backoff m = retry (execute_from left) backoff (attempt m)

  unfoldable pub execute : Exec (Manager W) A
  unfolding execute_from
  execute = execute_from max_retries base_backoff

module _ {W : Type 0} (connect : Exec W (Unit {0})) where
  -- `connect` replaces the client whatever it was.
  unfoldable pub reconnect : Exec (Manager W) (Unit {0})
  reconnect m = connected connect m (connect m.world)

  abbrev pub answered : {A : Type 0} → Result A × Manager W → Bool × Manager W
  answered (ok a, m) = (true, m)
  answered (err e, m) = (false, m)

  -- `ping`, on the call of the client
  unfoldable pub ping : Exec W (Unit {0}) → Manager W → Bool × Manager W
  unfolding execute
  ping client_ping m = answered (execute connect client_ping m)

-- `close`, on the call of the client's own `close`; what that raises is dropped.
unfoldable pub close : {W : Type 0} → Exec W (Unit {0}) → Manager W → Manager W
close client_close m =
    if m.client
    then (let (r, w) = client_close m.world in record m { client = false; world = w })
    else m
