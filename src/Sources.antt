-- ===== src/Sources.antt =====
-- services/task_manager/common/app_common/sources.py: what a source type is, and the environment of its
-- connector.
use live_streaming_data_pipe.Base.{
  ℕ, Text, text_eq, codes, Option, none, some, List, [], ◌∷◌, ◌++◌, join, if◌then◌else◌,
}
use live_streaming_data_pipe.Base.Int.{ℤ, nat_str}
use live_streaming_data_pipe.Base.Exec.{Exc, value_error, Result, ok, err}
use live_streaming_data_pipe.Json.Dumps.{dumps_texts}
use live_streaming_data_pipe.Model.{PipelineConfig, SourceType, opcua}

-- Texts of floats and back: `str(x)`, `float(text)` and `int(text)`.
pub record Numbers : Type 0 where
  pub float_str : ℕ → Text
  pub float_of : Text → Result ℕ
  pub int_of : Text → Result ℤ

abbrev pub entry : Text → Text → Text
entry k v = k ++ (b'=' ∷ v)

abbrev pub timeout_entry : Numbers → Option ℕ → List Text
timeout_entry ns none = []
timeout_entry ns (some t) = entry (codes "OPCUA_CONNECT_TIMEOUT_S") (ns.float_str t) ∷ []

-- `_opcua_environment`
unfoldable pub opcua_environment : Numbers → PipelineConfig → List Text
unfolding join nat_str dumps_texts
opcua_environment ns config =
    entry (codes "PIPELINE_ID") config.pipeline_id
    ∷ entry (codes "OPCUA_ENDPOINT") config.source_options.endpoint
    ∷ entry (codes "OPCUA_NODE_IDS") (join (codes ",") config.source_options.node_ids)
    ∷ entry (codes "OPCUA_NODE_NAMES_JSON") (dumps_texts config.source_options.node_names)
    ∷ entry (codes "OPCUA_PUBLISHING_INTERVAL_MS")
        (nat_str config.source_options.publishing_interval_ms)
    ∷ timeout_entry ns config.source_options.connect_timeout_s

-- `SourceSpec`, less the model of the options
pub record SourceSpec : Type 0 where
  pub environment : PipelineConfig → List Text
  pub command : Option (Text → List Text)
  pub default_staleness_threshold_s : ℕ

-- `str(source_type)`
abbrev pub source_name : SourceType → Text
source_name opcua = codes "opcua"

abbrev pub connector_command : Text → List Text
connector_command dir = codes "python3" ∷ (dir ++ codes "/opcua/connector.py") ∷ []

-- the bit pattern of 60.0
abbrev pub sixty : ℕ
sixty = 4_633_641_066_610_819_072

-- the entry of `SOURCES`
abbrev pub opcua_source : Numbers → SourceSpec
opcua_source ns = record {
  environment = opcua_environment ns;
  command = some connector_command;
  default_staleness_threshold_s = sixty;
}

abbrev pub unknown_source : Exc
unknown_source = record {
  kind = value_error;
  name = codes "ValueError";
  message = codes "unknown source_type";
}

unfoldable pub spec_for : Numbers → Text → Result SourceSpec
spec_for ns source_type =
    if text_eq source_type (codes "opcua") then ok (opcua_source ns) else err unknown_source
