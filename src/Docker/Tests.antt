-- ===== src/Docker/Tests.antt =====
-- The theorems on the Docker adapter at a small daemon, where a container's id is its name.
use live_streaming_data_pipe.Base.{
  ◌≡◌, ◌≢◌, refl, sym, Text, text_eq, text_eq_refl, text_eq-eq_false, codes, true, false, Option,
  none, some, [], if◌then◌else◌,
}
use live_streaming_data_pipe.Base.Dict.{lookup}
use live_streaming_data_pipe.Base.Exec.{Exc, not_found, Result, ok, err, ◌>>=◌}
use live_streaming_data_pipe.Json.{Value}
use live_streaming_data_pipe.Model.{PipelineConfig}
use live_streaming_data_pipe.Repo.Tests.{p1_config, state_named}
use live_streaming_data_pipe.Telegraf.{Disk}
use live_streaming_data_pipe.Telegraf.Tests.{numbers}
use live_streaming_data_pipe.Docker.{
  Daemon, Settings, cname, or_name, stop_then_remove, start_live_pipeline, stop_live_pipeline,
}
use live_streaming_data_pipe.Docker.Freed.{Answers, Freed}
use live_streaming_data_pipe.Docker.Owned.{
  Owned, stop_live_pipeline-Freed, start_live_pipeline-Owned,
}
use live_streaming_data_pipe.Docker.Evicts.{start_live_pipeline-evicts}

-- The pipelines of the containers, by name.
abbrev Owners : Type 0
Owners = Text → Option Text

abbrev put : Text → Option Text → Owners → Owners
put name o w k = if text_eq name k then o else w k

abbrev gone : Exc
gone = record { kind = not_found; name = codes "NotFound"; message = [] }

abbrev found : Text → Option Text → Result Text
found name none = err gone
found name (some pid) = ok name

abbrev daemon : Daemon Owners
daemon = record {
  get = λ name w. (found name (w name), w);
  remove = λ c w. (ok tt, put c none w);
  stop = λ c t w. (ok tt, w);
  run = λ r w. (ok tt, put r.name (lookup (codes "data-platform.pipeline_id") r.labels) w);
  logs = λ c tail w. (ok [], w);
  reloaded_status = λ c w. (ok (codes "running"), w);
  sleep = λ s w. (ok tt, w);
}

put_same : (name : Text) (o : Option Text) (w : Owners) → put name o w name ≡ o
put_same name o w = rw (text_eq_refl name) refl

put_other :
    (name other : Text) (o : Option Text) (w : Owners) → other ≢ name → put name o w other ≡ w other
put_other name other o w ne = rw (text_eq-eq_false name other (λ e. ne (sym e))) refl

found_id : (name c : Text) (o : Option Text) → found name o ≡ ok c → c ≡ name
found_id name c none h = absurd cc
found_id name c (some pid) h = cc

found_none : (name : Text) (e : Exc) (o : Option Text) → found name o ≡ err e → o ≡ none
found_none name e none h = refl
found_none name e (some pid) h = absurd cc

daemon-Answers : Answers daemon
daemon-Answers = record {
  owner = λ name w. w name;
  Is = λ c name w. c ≡ name;
  got = λ name c w h. found_id name c (w name) h;
  got_none = λ name e w h q. found_none name e (w name) h;
  got_keeps = λ name other w. refl;
  stopped = λ c name t w is h. is;
  stopped_gone = λ c name t e w is h q. absurd cc;
  stopped_keeps = λ c name other t w is ne. refl;
  removed = λ c name w is h. rw is (put_same name none w);
  removed_gone = λ c name e w is h q. absurd cc;
  removed_keeps = λ c name other w is ne. rw is (put_other name other none w ne);
  ran = λ r pid w p h. rw p (put_same r.name (some pid) w);
  ran_keeps = λ r other w ne.
      put_other r.name other (lookup (codes "data-platform.pipeline_id") r.labels) w ne;
}

abbrev no_text : Value → Text
no_text v = []

abbrev templates : Disk
templates = record {
  parents = [];
  is_dir = λ p. false;
  is_file = λ p. true;
  read_text = λ p. ok (codes "topic = $topic");
}

abbrev settings : Settings
settings = record {
  producer_image = codes "producer:1";
  kafka_bootstrap_servers = codes "kafka:9092";
  docker_network = codes "net";
}

abbrev dotted : PipelineConfig
dotted = record p1_config { pipeline_id = codes "a.b" }

-- `a-b` runs.
abbrev dashed_runs : Owners
dashed_runs = put (codes "dp-producer-a-b") (some (codes "a-b")) (λ k. none)

start_live_pipeline-Owned_example :
    Owned daemon daemon-Answers numbers no_text templates settings dotted dashed_runs
      (start_live_pipeline daemon numbers no_text templates settings dotted dashed_runs)
start_live_pipeline-Owned_example =
    start_live_pipeline-Owned daemon daemon-Answers numbers no_text templates settings dotted
      dashed_runs

stop_live_pipeline-Freed_example :
    let name = or_name none (cname (codes "producer") (codes "a.b")) in
    Freed daemon daemon-Answers name dashed_runs
      ((daemon.get name >>= stop_then_remove daemon) dashed_runs).0
      (stop_live_pipeline daemon numbers no_text templates settings dotted
        (state_named (codes "a.b"))
        dashed_runs)
stop_live_pipeline-Freed_example =
    stop_live_pipeline-Freed daemon daemon-Answers numbers no_text templates settings dotted
      (state_named (codes "a.b")) dashed_runs

a_b_starts :
    (start_live_pipeline daemon numbers no_text templates settings dotted dashed_runs).0
    ≡ ok (codes "dp-producer-a-b", [])
unfolding start_live_pipeline lookup ◌>>=◌
a_b_starts = refl

start_live_pipeline-evicts_example :
    daemon-Answers.owner
      (cname (codes "producer") (codes "a-b"))
      (start_live_pipeline daemon numbers no_text templates settings dotted dashed_runs).1
    ≡ some (codes "a.b")
start_live_pipeline-evicts_example =
    start_live_pipeline-evicts daemon daemon-Answers numbers no_text templates settings dotted
      (codes "a") (codes "b") dashed_runs (codes "dp-producer-a-b", []) refl a_b_starts
