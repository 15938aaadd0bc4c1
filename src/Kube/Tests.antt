-- ===== src/Kube/Tests.antt =====
-- The theorems on the Kubernetes adapter in a small cluster.
use mathlib.Core.Path.{subst}
use live_streaming_data_pipe.Base.{
  ◌≡◌, refl, ap, Text, text_eq, codes, true, false, Option, none, some, [], ◌∷◌, if◌then◌else◌,
}
use live_streaming_data_pipe.Base.Int.{pos}
use live_streaming_data_pipe.Base.Exec.{Exec, ok, err, ◌>>=◌}
use live_streaming_data_pipe.Json.{Value, Items, int, str, arr, obj, nil, cons, end, field}
use live_streaming_data_pipe.Repo.Tests.{p1_config}
use live_streaming_data_pipe.Telegraf.{Disk}
use live_streaming_data_pipe.Telegraf.Tests.{numbers}
use live_streaming_data_pipe.Kube.Cluster.{Cluster, name_in, replicas_in}
use live_streaming_data_pipe.Kube.Manifest.{
  Settings, Loader, env_entry, deployment_name, render_producer_deployment,
}
use live_streaming_data_pipe.Kube.Adapter.{
  Adapter, start_live_pipeline, stop_live_pipeline, restart_live_pipeline,
}
use live_streaming_data_pipe.Kube.Context.{elsewhere, SameAtContext, live_pipeline-elsewhere}
use live_streaming_data_pipe.Kube.Scaled.{
  Started, Stopped, start_live_pipeline-Started, stop_live_pipeline-Stopped,
}
use live_streaming_data_pipe.Kube.Fixture.{Replicas, set, outside, inside, inside-Answers}

abbrev template_text : Text
template_text = codes "name: producer-${PIPELINE_ID}"

abbrev templates : Disk
templates = record {
  parents = [];
  is_dir = λ p. false;
  is_file = λ p. true;
  read_text = λ p. ok template_text;
}

abbrev container : Items → Value
container items = obj (field (codes "env") (arr items) end)

-- The manifest of `p1` with the entries of its container's environment.
abbrev manifest_with : Items → Value
manifest_with items =
    let pod = obj (field (codes "containers") (arr (cons (container items) nil)) end) in
    let template = obj (field (codes "spec") pod end) in
    let spec = field (codes "replicas") (int (pos 1)) (field (codes "template") template end) in
    let metadata = obj (field (codes "name") (str (codes "producer-p1")) end) in
    obj (field (codes "metadata") metadata (field (codes "spec") (obj spec) end))

abbrev loader : Loader
loader = record {
  safe_load = λ t. ok (manifest_with nil);
  int_plus_30 = λ x. ok (pos 90);
  text_of = λ v. [];
}

abbrev settings : Settings
settings = record {
  producer_image = codes "producer:1";
  kafka_bootstrap_servers = codes "kafka:9092";
  image_pull_policy = codes "IfNotPresent";
  context = none;
}

abbrev p1_manifest : Value
p1_manifest = manifest_with (cons (env_entry (codes "TELEGRAF_CONFIG") template_text) nil)

p1_rendered :
    render_producer_deployment numbers templates loader settings p1_config 1 ≡ ok p1_manifest
unfolding render_producer_deployment
p1_rendered = refl

-- A cluster in which `p1` is stopped and `p2` runs.
abbrev two_deployments : Replicas
two_deployments = set (codes "producer-p1") 0 (set (codes "producer-p2") 1 (λ k. none))

abbrev adapter : Adapter Replicas
adapter = record { loaded = false; world = two_deployments }

p1_named : name_in p1_manifest ≡ some (deployment_name (codes "p1"))
unfolding name_in deployment_name
p1_named = refl

p1_sized : replicas_in p1_manifest ≡ some 1
unfolding replicas_in
p1_sized = refl

start_live_pipeline-Started_example :
    Started inside inside-Answers numbers templates loader settings p1_config adapter p1_manifest
      (start_live_pipeline inside numbers templates loader settings p1_config adapter)
start_live_pipeline-Started_example =
    start_live_pipeline-Started inside inside-Answers numbers templates loader settings p1_config
      adapter p1_manifest p1_rendered p1_named p1_sized

stop_live_pipeline-Stopped_example :
    Stopped inside inside-Answers numbers templates loader settings p1_config adapter
      (stop_live_pipeline inside numbers templates loader settings p1_config adapter)
stop_live_pipeline-Stopped_example =
    stop_live_pipeline-Stopped inside inside-Answers numbers templates loader settings p1_config
      adapter

p1_started :
    (start_live_pipeline inside numbers templates loader settings p1_config adapter).1.world
      (codes "producer-p1")
    ≡ some 1
unfolding start_live_pipeline ◌>>=◌ name_in replicas_in
p1_started = refl

-- The adapter outside of every cluster.
-- The same, with a configured context, and with another effect of every other context.
abbrev nowhere : Cluster Replicas
nowhere = record inside { load_incluster_config = λ w. (err outside, w) }

abbrev at_main : Settings
at_main = record settings { context = some (codes "main") }

abbrev stops_others : Text → Exec Replicas (Unit {0})
stops_others c w =
    if text_eq c (codes "main") then nowhere.load_kube_config c w else (ok tt, λ name. some 0)

abbrev or_empty : Option Text → Text
or_empty none = []
or_empty (some t) = t

same_at_main : SameAtContext nowhere (some (codes "main")) stops_others
same_at_main c s w e =
    let named : codes "main" ≡ c ∷ s = ap or_empty e in
    subst (λ t. stops_others t w ≡ nowhere.load_kube_config t w) named refl

live_pipeline-elsewhere_example :
    let other : Cluster Replicas = elsewhere nowhere at_main.context stops_others in
    (start_live_pipeline other numbers templates loader at_main p1_config adapter
      ≡ start_live_pipeline nowhere numbers templates loader at_main p1_config adapter)
    × (stop_live_pipeline other numbers templates loader at_main p1_config adapter
        ≡ stop_live_pipeline nowhere numbers templates loader at_main p1_config adapter)
    × (restart_live_pipeline other numbers templates loader at_main p1_config adapter
        ≡ restart_live_pipeline nowhere numbers templates loader at_main p1_config adapter)
live_pipeline-elsewhere_example =
    live_pipeline-elsewhere nowhere numbers templates loader at_main p1_config stops_others adapter
      same_at_main
