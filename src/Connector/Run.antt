-- ===== src/Connector/Run.antt =====
-- `run` and `main` of connectors/opcua/connector.py, over the client of OPC UA.
use live_streaming_data_pipe.Base.{
  ℕ, zero, suc, ◌<◌, ◌≡◌, refl, Text, Bool, true, false, List, arith, if◌then◌else◌,
}
use live_streaming_data_pipe.Base.Int.{ℤ, pos, negsuc}
use live_streaming_data_pipe.Base.Exec.{Exc, Result, ok, err, Exec, pure, ◌>>=◌, ◌>>◌}
use live_streaming_data_pipe.Connector.Config.{ConnectorConfig}

-- The calls of the client, of the health endpoint's server and of the clock.
pub record Client (World : Type 0) : Type 0 where
  pub connect : Text → ℕ → Exec World (Unit {0})
  pub serve_health : ℤ → ℕ → Exec World (Unit {0})
  -- `create_subscription` and `subscribe_data_change`
  pub create_subscription : ℤ → Exec World (Unit {0})
  pub subscribe_data_change : List Text → Exec World (Unit {0})
  pub sleep : ℕ → Exec World (Unit {0})
  pub check_connection : Exec World (Unit {0})
  pub disconnect : Exec World (Unit {0})
  -- `KeyboardInterrupt`, and the exceptions that `except Exception` does not take
  pub is_interrupt : Exc → Bool
  pub is_exception : Exc → Bool

-- A process that goes on after as many rounds as were asked for, or that has ended.
pub data Process (World A : Type 0) : Type 0 where
  running : World → Process World A
  ended : A → World → Process World A

abbrev pub is_zero : ℤ → Bool
is_zero (pos zero) = true
is_zero (pos (suc n)) = false
is_zero (negsuc n) = false

module _ {World : Type 0} (client : Client World) where
  abbrev pub after_round :
      (World → Process World Exc) → Result (Unit {0}) × World → Process World Exc
  after_round more (ok u, w) = more w
  after_round more (err e, w) = ended e w

  -- The `while True` of `run`, for some rounds: only an exception ends it.
  unfoldable pub watch : ℕ → ℕ → World → Process World Exc
  unfolding ◌>>=◌
  watch zero check_s w = running w
  watch (suc rounds) check_s w =
      after_round (watch rounds check_s) ((client.sleep check_s >> client.check_connection) w)

  -- The `finally` of `run`: `except Exception` drops what `disconnect` raises.
  abbrev pub dropped : Exc → Result (Unit {0}) × World → Process World Exc
  dropped e (ok u, w) = ended e w
  dropped e (err x, w) = ended (if client.is_exception x then e else x) w

  abbrev pub finally_disconnect : Process World Exc → Process World Exc
  finally_disconnect (running w) = running w
  finally_disconnect (ended e w) = dropped e (client.disconnect w)

  abbrev pub serve : ConnectorConfig → Exec World (Unit {0})
  serve cfg =
      if is_zero cfg.health_port
      then pure tt
      else client.serve_health cfg.health_port cfg.staleness_threshold_s

  -- the `try` of `run`
  unfoldable pub session : ℕ → ConnectorConfig → World → Process World Exc
  unfolding watch ◌>>=◌
  session rounds cfg w = after_round (watch rounds cfg.connection_check_s) (
      (serve cfg
          >> client.create_subscription cfg.publishing_interval_ms
          >> client.subscribe_data_change cfg.node_ids)
        w)

  -- `run`: it never returns, so what it ends with is an exception.
  unfoldable pub run : ℕ → ConnectorConfig → World → Process World Exc
  unfolding session
  run rounds cfg w =
      after_round (λ v. finally_disconnect (session rounds cfg v))
        (client.connect cfg.endpoint cfg.connect_timeout_s w)

  abbrev pub exit_code : Process World Exc → Process World (Result ℕ)
  exit_code (running w) = running w
  exit_code (ended e w) =
      ended (if client.is_interrupt e then ok 0 else if client.is_exception e then ok 1 else err e)
        w

  abbrev pub with_config : ℕ → Result ConnectorConfig → World → Process World (Result ℕ)
  with_config rounds (ok cfg) w = exit_code (run rounds cfg w)
  with_config rounds (err e) w = ended (err e) w

  -- `main`, with what `_config` gives
  unfoldable pub main : ℕ → Result ConnectorConfig → World → Process World (Result ℕ)
  unfolding run
  main rounds cfg w = with_config rounds cfg w

  -- The connection checks of the world pass `k` times, and then one of them raises `e` in the world `v`.
  abbrev pub FailsAfter : ℕ → ℕ → World → Exc → World → Type 0
  FailsAfter zero check_s w e v = ((client.sleep check_s >> client.check_connection) w) ≡ (err e, v)
  FailsAfter (suc k) check_s w e v =
      (w' : World) × (((client.sleep check_s >> client.check_connection) w) ≡ (ok tt, w'))
      × FailsAfter k check_s w' e v

  watch-ended :
      (k rounds check_s : ℕ) (w v : World) (e : Exc)
      → k < rounds
      → FailsAfter k check_s w e v
      → watch rounds check_s w ≡ ended e v
  unfolding watch
  watch-ended k zero check_s w v e le h = absurd (omega (arith, le))
  watch-ended zero (suc rounds) check_s w v e le h = rw h refl
  watch-ended (suc k) (suc rounds) check_s w v e le (w', passed, h) =
      rw passed (watch-ended k rounds check_s w' v e (omega (arith, le)) h)

  -- What `disconnect` raises, if it raises, is taken by `except Exception`.
  abbrev pub Leaves : World → Type 0
  Leaves v = (x : Exc) → (client.disconnect v).0 ≡ err x → client.is_exception x ≡ true

  dropped-ended :
      (e : Exc) (r : Result (Unit {0})) (w : World)
      → ((x : Exc) → r ≡ err x → client.is_exception x ≡ true)
      → dropped e (r, w) ≡ ended e w
  dropped-ended e (ok u) w h = refl
  dropped-ended e (err x) w h = rw (h x refl) refl

  -- If the connector has connected and subscribed, `k` connection checks pass and then one raises an
  -- exception of `Exception` that is no interrupt, and `disconnect` returns or raises an exception of
  -- `Exception`, then `run` ends after that check with the check's exception, and the process ends
  -- with exit code 1; the last thing that either has done is to disconnect.
  pub main-exits :
      (k rounds : ℕ) (cfg : ConnectorConfig) (w w1 w2 v : World) (e : Exc)
      → k < rounds
      → client.connect cfg.endpoint cfg.connect_timeout_s w ≡ (ok tt, w1)
      → (serve cfg
            >> client.create_subscription cfg.publishing_interval_ms
            >> client.subscribe_data_change cfg.node_ids)
          w1
        ≡ (ok tt, w2)
      → FailsAfter k cfg.connection_check_s w2 e v
      → client.is_interrupt e ≡ false
      → client.is_exception e ≡ true
      → Leaves v
      → (run rounds cfg w ≡ ended e (client.disconnect v).1)
        × (main rounds (ok cfg) w ≡ ended (ok 1) (client.disconnect v).1)
  unfolding main run session
  main-exits k rounds cfg w w1 w2 v e le connected subscribed fails no_interrupt exception left =
      let left' : dropped e (client.disconnect v) ≡ ended e (client.disconnect v).1 =
        dropped-ended e (client.disconnect v).0 (client.disconnect v).1 left in
      rw (connected, subscribed)
        (rw (watch-ended k rounds cfg.connection_check_s w2 v e le fails)
          (rw left' (refl, rw (no_interrupt, exception) refl)))
