-- ===== src/Repo/Codec.antt =====
-- A store with the laws of Repo/Redis.antt: keys to texts as a function, and a state as a text that
-- puts its fields one behind the other.
use live_streaming_data_pipe.Base.{
  ℕ, zero, suc, ◌≡◌, ◌≢◌, refl, Text, text_eq, codes, Option, none, some, [], ◌∷◌, ◌++◌, length,
  if◌then◌else◌,
}
use live_streaming_data_pipe.Base.Int.{pos}
use live_streaming_data_pipe.Base.Exec.{Result, ok}
use live_streaming_data_pipe.Model.{
  PipelineConfig, PipelineState, PipelineType, normal, live, PipelineStatus, created, starting,
  running, stopping, stopped, failed, DesiredState, want_running, want_stopped,
}
use live_streaming_data_pipe.Repo.Redis.{Redis}

unfoldable cut : ℕ → Text → Text × Text
cut zero t = ([], t)
cut (suc n) [] = ([], [])
cut (suc n) (c ∷ t) = let (a, b) = cut n t in (c ∷ a, b)

cut-append : (a t : Text) → cut (length a) (a ++ t) ≡ (a, t)
unfolding cut
cut-append [] t = refl
cut-append (c ∷ a) t = rw (cut-append a t) refl

unfoldable put : Text → Text → Text
put a t = length a ∷ (a ++ t)

unfoldable pop : Text → Text × Text
unfolding cut
pop [] = ([], [])
pop (n ∷ t) = cut n t

pop-put : (a t : Text) → pop (put a t) ≡ (a, t)
unfolding pop put
pop-put a t = cut-append a t

unfoldable put_option : Option Text → Text → Text
unfolding put
put_option none t = 0 ∷ t
put_option (some a) t = 1 ∷ put a t

abbrev present_text : Text × Text → Option Text × Text
present_text (a, t) = (some a, t)

unfoldable pop_option : Text → Option Text × Text
unfolding pop
pop_option [] = (none, [])
pop_option (zero ∷ t) = (none, t)
pop_option (suc n ∷ t) = present_text (pop t)

pop_option-put_option : (o : Option Text) (t : Text) → pop_option (put_option o t) ≡ (o, t)
unfolding pop_option put_option
pop_option-put_option none t = refl
pop_option-put_option (some a) t = rw (pop-put a t) refl

abbrev type_code : PipelineType → ℕ
type_code normal = 0
type_code live = 1

abbrev type_at : ℕ → PipelineType
type_at zero = normal
type_at (suc n) = live

abbrev desired_code : DesiredState → ℕ
desired_code want_running = 0
desired_code want_stopped = 1

abbrev desired_at : ℕ → DesiredState
desired_at zero = want_running
desired_at (suc n) = want_stopped

abbrev status_code : PipelineStatus → ℕ
status_code created = 0
status_code starting = 1
status_code running = 2
status_code stopping = 3
status_code stopped = 4
status_code failed = 5

abbrev status_at : ℕ → PipelineStatus
status_at zero = created
status_at (suc zero) = starting
status_at (suc (suc zero)) = running
status_at (suc (suc (suc zero))) = stopping
status_at (suc (suc (suc (suc zero)))) = stopped
status_at (suc (suc (suc (suc (suc n))))) = failed

type_lem : (p : PipelineType) → type_at (type_code p) ≡ p
type_lem normal = refl
type_lem live = refl

desired_lem : (d : DesiredState) → desired_at (desired_code d) ≡ d
desired_lem want_running = refl
desired_lem want_stopped = refl

status_lem : (s : PipelineStatus) → status_at (status_code s) ≡ s
status_lem created = refl
status_lem starting = refl
status_lem running = refl
status_lem stopping = refl
status_lem stopped = refl
status_lem failed = refl

unfoldable dump_texts : PipelineState → Text
unfolding put put_option
dump_texts s = put s.pipeline_id (
    put s.topic (
      put s.updated_at (
        put_option s.producer_container (
          put_option s.consumer_container
            (put_option s.last_heartbeat_at (put_option s.last_error []))))))

unfoldable pub dump : PipelineState → Text
unfolding dump_texts
dump s =
    type_code s.pipeline_type ∷ desired_code s.desired_state ∷ status_code s.status ∷ dump_texts s

abbrev state_at : ℕ → ℕ → ℕ → Text → PipelineState
state_at p d s t =
    let (pipeline_id, t1) = pop t in
    let (topic, t2) = pop t1 in
    let (updated_at, t3) = pop t2 in
    let (producer, t4) = pop_option t3 in
    let (consumer, t5) = pop_option t4 in
    let (heartbeat, t6) = pop_option t5 in
    record {
      pipeline_id = pipeline_id;
      pipeline_type = type_at p;
      desired_state = desired_at d;
      status = status_at s;
      topic = topic;
      producer_container = producer;
      consumer_container = consumer;
      last_heartbeat_at = heartbeat;
      last_error = (pop_option t6).0;
      updated_at = updated_at;
    }

unfoldable pub load : Text → Result PipelineState
unfolding pop pop_option
load (p ∷ d ∷ s ∷ t) = ok (state_at p d s t)
load _ = ok (state_at 0 0 0 [])

pub load-dump : (s : PipelineState) → load (dump s) ≡ ok s
unfolding load dump dump_texts
load-dump s =
    rw
      (
        pop-put s.pipeline_id _,
        pop-put s.topic _,
        pop-put s.updated_at _,
        pop_option-put_option s.producer_container _,
        pop_option-put_option s.consumer_container _,
        pop_option-put_option s.last_heartbeat_at _,
        pop_option-put_option s.last_error _,
        type_lem s.pipeline_type,
        desired_lem s.desired_state,
        status_lem s.status,
      )
      refl

pub dump_filled : (s : PipelineState) → dump s ≢ []
unfolding dump
dump_filled s e = cc

pub braces_filled : codes "{}" ≢ []
braces_filled e = cc

-- A store whose only configuration is the given one, and whose clock stands still.
abbrev pub one_config : PipelineConfig → Redis
one_config config = record {
  World = Text → Option Text;
  get = λ k w. w k;
  set = λ k v w j. if text_eq k j then some v else w j;
  set_nx = λ k v w j. if text_eq k j then some v else w j;
  delete = λ k w j. if text_eq k j then none else w j;
  incr = λ k w. (pos 1, w);
  config_keys = λ w. [];
  publish = λ c m w. w;
  utc_now_iso = λ w. (codes "2026-01-01T00:00:00+00:00", w);
  dump_config = λ c. codes "{}";
  load_config = λ t. ok config;
  dump_state = dump;
  load_state = load;
  dump_event = λ s e t. e;
  get-set = λ k j v w. refl;
  get-delete = λ k j w. refl;
  get-publish = λ k c m w. refl;
  get-utc_now_iso = λ k w. refl;
  dump_state_filled = dump_filled;
  load_state-dump_state = load-dump;
  dump_config_filled = λ c. braces_filled;
}
