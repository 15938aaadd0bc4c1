-- ===== src/Model.antt =====
-- Shared data: services/task_manager/common/app_common/models.py and the options of sources.py.
-- A `float` is its 64-bit pattern, a number here; its operations are parameters (Json.antt).
use live_streaming_data_pipe.Base.{ℕ, Text, codes, Option, List, [], ◌∷◌}
use live_streaming_data_pipe.Base.Int.{ℤ}
use live_streaming_data_pipe.Base.Dict.{Dict}
use live_streaming_data_pipe.Naming.{Named, int, ch_unique_identifier}

pub data PipelineType : Type 0 where
  normal live : PipelineType

pub data PipelineStatus : Type 0 where
  created starting running stopping stopped failed : PipelineStatus

pub data DesiredState : Type 0 where
  want_running want_stopped : DesiredState

-- `SourceType` is generated from the registry, which has one entry.
pub data SourceType : Type 0 where
  opcua : SourceType

pub record OpcUaOptions : Type 0 where
  pub staleness_threshold_s : Option ℕ
  pub endpoint : Text
  pub node_ids : List Text
  pub node_names : Dict Text
  pub publishing_interval_ms : ℕ
  pub connect_timeout_s : Option ℕ

pub record PipelineConfig : Type 0 where
  pub pipeline_id : Text
  pub pipeline_type : PipelineType
  pub airflow_dag_id : Option Text
  pub user_id : Text
  pub collection_number : ℤ
  pub table_name : Text
  pub table_schema : Dict Text
  pub source_type : SourceType
  pub topic : Text
  pub batch_size : ℕ
  pub flush_interval_seconds : ℕ
  pub source_options : OpcUaOptions
  pub created_at : Text
  pub updated_at : Text

-- The property `PipelineConfig.ch_unique_identifier`.
unfoldable pub table_of : PipelineConfig → Named
table_of config =
    ch_unique_identifier config.user_id (int config.collection_number) config.table_name

pub record PipelineState : Type 0 where
  pub pipeline_id : Text
  pub pipeline_type : PipelineType
  pub desired_state : DesiredState
  pub status : PipelineStatus
  pub topic : Text
  pub producer_container : Option Text
  pub consumer_container : Option Text
  pub last_heartbeat_at : Option Text
  pub last_error : Option Text
  pub updated_at : Text

-- `DEFAULT_TABLE_SCHEMA`
abbrev pub default_table_schema : Dict Text
default_table_schema =
    (codes "event_time", codes "DateTime64(3)")
    ∷ (codes "pipeline_id", codes "LowCardinality(String)")
    ∷ (codes "source", codes "LowCardinality(String)")
    ∷ (codes "sensor", codes "LowCardinality(String)")
    ∷ (codes "quality", codes "LowCardinality(String)")
    ∷ (codes "node_id", codes "String")
    ∷ (codes "sequence", codes "Int64")
    ∷ (codes "value", codes "Nullable(Float64)")
    ∷ (codes "value_text", codes "Nullable(String)")
    ∷ (codes "ingested_at", codes "DateTime64(3)")
    ∷ []
