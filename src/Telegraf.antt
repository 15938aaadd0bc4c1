-- ===== src/Telegraf.antt =====
-- services/task_manager/common/app_common/telegraf_config.py: the configuration of a pipeline's
-- Telegraf, a text in TOML.
pub mod Reader
pub mod RoundTrip
pub mod Wide
pub mod Tests
use live_streaming_data_pipe.Base.{
  ℕ, ◌*◌, max, Text, codes, Bool, true, false, Option, none, some, List, [], ◌∷◌, ◌++◌, join,
  if◌then◌else◌,
}
use live_streaming_data_pipe.Base.Int.{nat_str, int_str}
use live_streaming_data_pipe.Base.Strip.{stripped_parts}
use live_streaming_data_pipe.Base.Dict.{Dict}
use live_streaming_data_pipe.Base.Exec.{Exc, os_error, Result, ok, err}
use live_streaming_data_pipe.Json.{Value, Items, null, bool, int, float, str, arr, obj, nil, cons}
use live_streaming_data_pipe.Json.Dumps.{dumps_text}
use live_streaming_data_pipe.Model.{PipelineConfig}
use live_streaming_data_pipe.Sources.{Numbers, SourceSpec, source_name, spec_for}
use live_streaming_data_pipe.Template.{safe_substitute}

abbrev pub connector_dir : Text
connector_dir = codes "/opt/connectors"

abbrev pub metrics_port : ℕ
metrics_port = 9_273

abbrev pub time_format : Text
time_format = codes "2006-01-02T15:04:05.999999999Z07:00"

-- `_toml`; `text_of` is `str` of a value that is no text, number or list.
module _ (ns : Numbers) (text_of : Value → Text) where
  unfoldable mutual
    unfolding dumps_text int_str join

    pub toml : Value → Text
    toml (arr items) = b'[' ∷ (join (codes ", ") (toml_all items) ++ (b']' ∷ []))
    toml (bool true) = codes "true"
    toml (bool false) = codes "false"
    toml (int n) = int_str n
    toml (float x) = ns.float_str x
    toml (str s) = dumps_text s
    toml null = dumps_text (text_of null)
    toml (obj fs) = dumps_text (text_of (obj fs))

    pub toml_all : Items → List Text
    toml_all nil = []
    toml_all (cons v items) = toml v ∷ toml_all items

-- A list of texts as a value.
unfoldable pub texts : List Text → Items
texts [] = nil
texts (s ∷ ss) = cons (str s) (texts ss)

-- The disk as the renderers see it: the ancestors of the module's file, and what is on the disk.
pub record Disk : Type 0 where
  pub parents : List Text
  pub is_dir : Text → Bool
  pub is_file : Text → Bool
  pub read_text : Text → Result Text

unfoldable pub subdirs : Disk → Text → List Text → List Text
subdirs disk child [] = []
subdirs disk child (p ∷ ps) =
    let rest = subdirs disk child ps in
    if disk.is_dir (p ++ child) then (p ++ child) ∷ rest else rest

-- `_template_dirs`
unfoldable pub template_dirs : Disk → List Text
unfolding subdirs
template_dirs disk =
    codes "/opt/telegraf/templates" ∷ subdirs disk (codes "/telegraf/templates") disk.parents

abbrev pub no_template : Exc
no_template = record {
  kind = os_error;
  name = codes "FileNotFoundError";
  message = codes "no Telegraf template";
}

-- The first directory with the file.
unfoldable pub first_with : Disk → Text → List Text → Result Text
first_with disk file [] = err no_template
first_with disk file (d ∷ ds) =
    let rest = first_with disk file ds in
    if disk.is_file (d ++ (b'/' ∷ file)) then disk.read_text (d ++ (b'/' ∷ file)) else rest

-- `_template`: the text of the template
unfoldable pub template : Disk → Text → Result Text
unfolding first_with template_dirs
template disk source_type = first_with disk (source_type ++ codes ".conf.tmpl") (template_dirs disk)

abbrev pub command_of : Option (Text → List Text) → Text → List Text
command_of none dir = []
command_of (some command) dir = command dir

module _ (ns : Numbers) (text_of : Value → Text) where
  -- `_substitutions`, with the texts that `Template` makes of its values
  unfoldable pub substitutions : PipelineConfig → SourceSpec → Text → Text → Text → Dict Text
  unfolding toml texts stripped_parts nat_str
  substitutions config spec kafka_brokers dir restart_delay =
      (codes "interval", codes "10s")
      ∷ (codes "flush_interval", codes "5s")
      ∷ (codes "metric_batch_size", nat_str config.batch_size)
      ∷ (codes "metric_buffer_limit", nat_str (max (config.batch_size * 20) 10_000))
      ∷ (codes "command", toml ns text_of (arr (texts (command_of spec.command dir))))
      ∷ (codes "environment", toml ns text_of (arr (texts (spec.environment config))))
      ∷ (codes "restart_delay", restart_delay)
      ∷ (codes "time_format", time_format)
      ∷ (codes "measurement", config.topic)
      ∷ (codes "measurement_name", toml ns text_of (str config.topic))
      ∷ (codes "brokers", toml ns text_of (arr (texts (stripped_parts kafka_brokers))))
      ∷ (codes "topic", toml ns text_of (str config.topic))
      ∷ (codes "METRICS_PORT", nat_str metrics_port)
      ∷ []

  abbrev pub filled : Result Text → Dict Text → Result Text
  filled (ok t) d = ok (safe_substitute t d)
  filled (err e) d = err e

  abbrev pub rendered : Disk → PipelineConfig → Text → Text → Text → Result SourceSpec → Result Text
  rendered disk config kafka_brokers dir restart_delay (ok spec) =
      filled (template disk (source_name config.source_type))
        (substitutions config spec kafka_brokers dir restart_delay)
  rendered disk config kafka_brokers dir restart_delay (err e) = err e

  -- `render_telegraf_config`
  unfoldable pub render_telegraf_config : Disk → PipelineConfig → Text → Text → Text → Result Text
  unfolding template substitutions safe_substitute spec_for
  render_telegraf_config disk config kafka_brokers dir restart_delay =
      rendered disk config kafka_brokers dir restart_delay
        (spec_for ns (source_name config.source_type))
