-- ===== src/Kube/Manifest.antt =====
-- `staleness_threshold_for`, `deployment_name` and `render_producer_deployment` of
-- services/task_manager/common/app_common/runtime/kubernetes_runtime.py.
use live_streaming_data_pipe.Base.{
  ℕ, Text, text_eq, codes, Option, none, some, List, [], ◌∷◌, ◌++◌, if◌then◌else◌,
}
use live_streaming_data_pipe.Base.Int.{ℤ, nat_str, int_str}
use live_streaming_data_pipe.Base.Dict.{Dict}
use live_streaming_data_pipe.Base.Exec.{Exc, os_error, key_error, Result, ok, err}
use live_streaming_data_pipe.Json.{Value, Fields, Items, str, arr, obj, nil, cons, end, field}
use live_streaming_data_pipe.Model.{PipelineConfig}
use live_streaming_data_pipe.Sources.{Numbers, SourceSpec, source_name, spec_for, sixty}
use live_streaming_data_pipe.Template.{substitute}
use live_streaming_data_pipe.Telegraf.{Disk, connector_dir, render_telegraf_config, subdirs}
use live_streaming_data_pipe.Connector.Config.{and_then}
use live_streaming_data_pipe.Watchdog.{is_value_error}

abbrev pub health_port : ℕ
health_port = 8_080

abbrev pub template_name : Text
template_name = codes "producer-deployment-template.yaml"

abbrev pub no_template : Exc
no_template = record {
  kind = os_error;
  name = codes "FileNotFoundError";
  message = codes "producer-deployment-template.yaml not found";
}

unfoldable pub first_file : Disk → List Text → Result Text
first_file disk [] = err no_template
first_file disk (d ∷ ds) =
    let rest = first_file disk ds in
    let path = d ++ (b'/' ∷ template_name) in if disk.is_file path then ok path else rest

-- `_template_path`
unfoldable pub template_path : Disk → Result Text
unfolding first_file subdirs
template_path disk = first_file disk (codes "/opt/k8s" ∷ subdirs disk (codes "/k8s") disk.parents)

abbrev pub default_of : Result SourceSpec → Result ℕ
default_of (ok spec) = ok spec.default_staleness_threshold_s
default_of (err e) = if is_value_error e.kind then ok sixty else err e

abbrev pub or_default : Numbers → PipelineConfig → Option ℕ → Result ℕ
or_default ns config (some t) = ok t
or_default ns config none = default_of (spec_for ns (source_name config.source_type))

-- `staleness_threshold_for`
unfoldable pub staleness_threshold_for : Numbers → PipelineConfig → Result ℕ
unfolding spec_for
staleness_threshold_for ns config = or_default ns config config.source_options.staleness_threshold_s

unfoldable pub deployment_name : Text → Text
deployment_name pipeline_id = codes "producer-" ++ pipeline_id

-- The settings of the adapter.
pub record Settings : Type 0 where
  pub producer_image : Text
  pub kafka_bootstrap_servers : Text
  pub image_pull_policy : Text
  pub context : Option Text

-- What is taken from yaml and from Python's floats: `yaml.safe_load`, `int(x) + 30`, and `str` of a value
-- for Telegraf's configuration.
pub record Loader : Type 0 where
  pub safe_load : Text → Result Value
  pub int_plus_30 : ℕ → Result ℤ
  pub text_of : Value → Text

abbrev pub missing : Text → Exc
missing k = record { kind = key_error; name = codes "KeyError"; message = k }

-- `value[k]` is replaced by what `f` makes of it.
unfoldable pub at_key : (Value → Result Value) → Text → Fields → Result Fields
at_key f k end = err (missing k)
at_key f k (field j v fs) =
    let rest = at_key f k fs in
    if text_eq j k
    then and_then (f v) (λ u. ok (field j u fs))
    else and_then rest (λ r. ok (field j v r))

unfoldable pub in_object : Text → (Value → Result Value) → Value → Result Value
unfolding at_key
in_object k f (obj fs) = and_then (at_key f k fs) (λ r. ok (obj r))
in_object k f v = err (missing k)

-- `value[0]`
abbrev pub in_first : (Value → Result Value) → Value → Result Value
in_first f (arr (cons v items)) = and_then (f v) (λ u. ok (arr (cons u items)))
in_first f v = err (missing (codes "0"))

unfoldable pub with_item : Value → Items → Items
with_item v nil = cons v nil
with_item v (cons u items) = cons u (with_item v items)

-- `value.append(v)`
abbrev pub append : Value → Value → Result Value
append v (arr items) = ok (arr (with_item v items))
append v u = err (missing (codes "append"))

abbrev pub env_entry : Text → Text → Value
env_entry name value = obj (field (codes "name") (str name) (field (codes "value") (str value) end))

-- `manifest["spec"]["template"]["spec"]["containers"][0]["env"].append(…)`
unfoldable pub append_env : Value → Value → Result Value
unfolding in_object with_item
append_env v m =
    in_object (codes "spec")
      (in_object (codes "template") (
        in_object (codes "spec")
          (in_object (codes "containers") (in_first (in_object (codes "env") (append v))))))
      m

module _ (ns : Numbers) (disk : Disk) (loader : Loader) (settings : Settings) where
  abbrev pub values : PipelineConfig → ℕ → ℕ → ℤ → Dict Text
  values config replicas threshold delay =
      (codes "PIPELINE_ID", config.pipeline_id)
      ∷ (codes "REPLICAS", nat_str replicas)
      ∷ (codes "PRODUCER_IMAGE", settings.producer_image)
      ∷ (codes "IMAGE_PULL_POLICY", settings.image_pull_policy)
      ∷ (codes "HEALTH_PORT", nat_str health_port)
      ∷ (codes "STALENESS_THRESHOLD_S", ns.float_str threshold)
      ∷ (codes "PROBE_INITIAL_DELAY_S", int_str delay)
      ∷ []

  -- `render_producer_deployment`
  unfoldable pub render_producer_deployment : PipelineConfig → ℕ → Result Value
  unfolding template_path substitute staleness_threshold_for append_env render_telegraf_config
      nat_str int_str
  render_producer_deployment config replicas = and_then (template_path disk) λ path.
      and_then (disk.read_text path) λ template.
        and_then (staleness_threshold_for ns config) λ threshold.
          and_then (loader.int_plus_30 threshold) λ delay.
            and_then (substitute template (values config replicas threshold delay)) λ rendered.
              and_then (loader.safe_load rendered) λ manifest.
                and_then
                  (render_telegraf_config ns loader.text_of disk config
                    settings.kafka_bootstrap_servers connector_dir (codes "10s"))
                  λ telegraf. append_env (env_entry (codes "TELEGRAF_CONFIG") telegraf) manifest
