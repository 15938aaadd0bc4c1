-- ===== src/Connector/Tests.antt =====
-- The theorems on the connector at known inputs.
use live_streaming_data_pipe.Base.{
  ℕ, zero, suc, ◌≡◌, ◌≢◌, refl, ap, ◌∙◌, Text, text_eq, codes, true, false, Option, none, some,
  List, [], ◌∷◌, inl, inr, All, ◌==◌, if◌then◌else◌, arith,
}
use mathlib.Core.Path.{subst}
use live_streaming_data_pipe.Base.Int.{pos, nat_str}
use live_streaming_data_pipe.Base.Strip.{strip, IsPlain}
use live_streaming_data_pipe.Base.Exec.{Exc, connection_error, Result, ok, err, ◌>>=◌}
use live_streaming_data_pipe.Json.{int, obj, end, field, parsed, Py}
use live_streaming_data_pipe.Repo.Tests.{p1_config}
use live_streaming_data_pipe.Sources.{Numbers, entry, opcua_environment}
use live_streaming_data_pipe.Telegraf.Tests.{numbers}
use live_streaming_data_pipe.Connector.Config.{Environ, ConnectorConfig, config}
use live_streaming_data_pipe.Connector.Handed.{Carries, Reads, handed, config-opcua_environment}
use live_streaming_data_pipe.Connector.Emitter.{Notification, Moment, Emitter, notified}
use live_streaming_data_pipe.Connector.Sequence.{Emitted, notified-Emitted}
use live_streaming_data_pipe.Connector.Run.{Client, ended, run, main, main-exits}

abbrev py : Py
py = record {
  loads = λ t. parsed (obj end);
  to_float = λ v. ok 0;
  float_is_zero = λ n. true;
  from_timestamp_ms = λ n. ok 0;
  isoformat = λ n. codes "2026-01-01T00:00:00+00:00";
  to_str = λ v. [];
  repr = λ v. [];
}

-- Numbers that are read for one interval.
abbrev thousand : Numbers
thousand = record numbers { int_of = λ t. ok (pos (if text_eq t (codes "0") then 0 else 1_000)) }

-- A process that has just the entries of `p1`.
abbrev after_name : Text → Text → Option Text
after_name [] [] = none
after_name [] (c ∷ s) = if c == b'=' then some s else none
after_name (k ∷ ks) [] = none
after_name (k ∷ ks) (c ∷ s) = if c == k then after_name ks s else none

abbrev or_else : Option Text → Option Text → Option Text
or_else none o = o
or_else (some v) o = some v

abbrev found_in : List Text → Environ
found_in [] k = none
found_in (e ∷ es) k = or_else (after_name k e) (found_in es k)

abbrev p1_environ : Environ
p1_environ = found_in (opcua_environment thousand p1_config)

entry-injective :
    (k j v u : Text)
    → All (λ c. c ≢ b'=') k
    → All (λ c. c ≢ b'=') j
    → entry k v ≡ entry j u
    → (k ≡ j) × (v ≡ u)
entry-injective [] [] v u hk hj e = (refl, cc)
entry-injective [] (d ∷ j) v u hk hj e = absurd (hj.0 cc)
entry-injective (c ∷ k) [] v u hk hj e = absurd (hk.0 cc)
entry-injective (c ∷ k) (d ∷ j) v u hk hj e =
    let (p, q) = entry-injective k j v u hk.1 hj.1 cc in (cc, q)

-- An entry of `p1` under a known name.
p1_carried :
    (j u k v : Text)
    → All (λ c. c ≢ b'=') j
    → p1_environ j ≡ some u
    → All (λ c. c ≢ b'=') k
    → entry j u ≡ entry k v
    → p1_environ k ≡ some v
p1_carried j u k v hj found hk e =
    let (p, q) = entry-injective j k u v hj hk e in
    let found' : p1_environ k ≡ some u = subst (λ x. p1_environ x ≡ some u) p found in
    found' ∙ ap some q

p1-Carries : Carries p1_environ (opcua_environment thousand p1_config)
unfolding opcua_environment
p1-Carries k v hk (inl e) =
    p1_carried (codes "PIPELINE_ID") (codes "p1") k v (omega arith) refl hk e
p1-Carries k v hk (inr (inl e)) =
    p1_carried (codes "OPCUA_ENDPOINT") (codes "opc.tcp://host:4840") k v (omega arith) refl hk e
p1-Carries k v hk (inr (inr (inl e))) =
    p1_carried (codes "OPCUA_NODE_IDS") (codes "ns=2;i=1") k v (omega arith) refl hk e
p1-Carries k v hk (inr (inr (inr (inl e)))) =
    p1_carried (codes "OPCUA_NODE_NAMES_JSON") (codes "{}") k v (omega arith) refl hk e
p1-Carries k v hk (inr (inr (inr (inr (inl e))))) =
    p1_carried (codes "OPCUA_PUBLISHING_INTERVAL_MS") (codes "1000") k v (omega arith) refl hk e
p1-Carries k v hk (inr (inr (inr (inr (inr i))))) = elim i [ ]

p1-Reads : Reads py thousand p1_config p1_environ (obj end) 0 0 0 (pos 0)
unfolding opcua_environment nat_str
p1-Reads = record {
  names_read = refl;
  interval_read = refl;
  check_read = refl;
  timeout_read = refl;
  port_read = refl;
  stale_read = refl;
}

p1-IsPlain : All IsPlain p1_config.source_options.node_ids
unfolding strip
p1-IsPlain = (record { is_stripped = refl; is_filled = λ e. cc; no_comma = omega arith }, tt)

config-opcua_environment_example :
    config py thousand p1_environ
    ≡ ok (handed py thousand p1_config p1_environ (obj end) 0 0 0 (pos 0))
config-opcua_environment_example =
    config-opcua_environment py thousand p1_config p1_environ p1-Carries (obj end) 0 0 0 (pos 0)
      p1-Reads (λ e. cc) (λ e. cc) p1-IsPlain

-- Three notifications: one is printed, one has a name that is no text, one meets a closed pipe.
abbrev closed : Exc
closed = record { kind = connection_error; name = codes "BrokenPipeError"; message = [] }

abbrev at_moment : ℕ → Result (Unit {0}) → Moment
at_moment t p = record { utc_now = t; monotonic = t; printed = p }

abbrev reading_at : Text → Notification
reading_at node = record {
  node_id = ok node;
  source_timestamp = ok none;
  status_code = ok (record { is_good = true; is_uncertain = false });
  val = int (pos 7);
}

abbrev emitter : Emitter
emitter = record {
  pipeline_id = codes "p1";
  node_names = obj (field (codes "b") (int (pos 1)) end);
  last_read = some 100;
  sequence = 4;
  out = [];
}

abbrev three : List (Moment × Notification)
three =
    (at_moment 101 (ok tt), reading_at (codes "a"))
    ∷ (at_moment 102 (ok tt), reading_at (codes "b"))
    ∷ (at_moment 103 (err closed), reading_at (codes "a"))
    ∷ []

notified-Emitted_example :
    Emitted three emitter (notified py (λ t. t) (λ r. ok r.sensor) three emitter)
notified-Emitted_example = notified-Emitted py (λ t. t) (λ r. ok r.sensor) three emitter

three-notified :
    let e = notified py (λ t. t) (λ r. ok r.sensor) three emitter in
    (e.sequence ≡ 7) × (e.last_read ≡ some 101)
unfolding notified
three-notified = (refl, refl)

-- A server whose session is lost after as many checks as the world has left, and which then does not
-- answer `disconnect`.
abbrev lost : Exc
lost = record { kind = connection_error; name = codes "ConnectionError"; message = [] }

abbrev check : ℕ → Result (Unit {0}) × ℕ
check zero = (err lost, 0)
check (suc n) = (ok tt, n)

abbrev server : Client ℕ
server = record {
  connect = λ endpoint t w. (ok tt, w);
  serve_health = λ port t w. (ok tt, w);
  create_subscription = λ period w. (ok tt, w);
  subscribe_data_change = λ ids w. (ok tt, w);
  sleep = λ s w. (ok tt, w);
  check_connection = check;
  disconnect = λ w. (err lost, 99);
  is_interrupt = λ e. false;
  is_exception = λ e. true;
}

abbrev p1_connector : ConnectorConfig
p1_connector = handed py thousand p1_config p1_environ (obj end) 0 0 0 (pos 0)

main-exits_example :
    (run server 5 p1_connector 2 ≡ ended lost 99)
    × (main server 5 (ok p1_connector) 2 ≡ ended (ok 1) 99)
unfolding ◌>>=◌
main-exits_example =
    main-exits server 2 5 p1_connector 2 2 2 0 lost (omega arith) refl refl
      (1, refl, (0, refl, refl)) refl refl (λ x h. refl)
