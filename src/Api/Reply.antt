-- ===== src/Api/Reply.antt =====
-- What the handlers answer.
use live_streaming_data_pipe.Base.{ℕ, Text, codes, Option, some, List}
use live_streaming_data_pipe.Model.{PipelineConfig, PipelineState, PipelineStatus, DesiredState}
use live_streaming_data_pipe.Repo.Store.{Update, no_update}

pub data Reply : Type 0 where
  message : Text → PipelineState → Reply
  created_record : PipelineConfig → PipelineState → Text → Reply
  status_record : PipelineConfig → Option PipelineState → Reply
  listing : List (PipelineConfig × PipelineState) → Reply
  logs : Text → Text → Text → Reply
  no_content : Reply
  http_error : ℕ → Text → Reply

abbrev pub not_here : Text
not_here = codes "normal pipelines are managed by Airflow, not by this service"

abbrev pub not_found : Text
not_found = codes "Pipeline not found"

-- The keyword arguments that the handlers pass to `update_state`.
abbrev pub set_status : PipelineStatus → Update
set_status status = record no_update { status = some status }

abbrev pub set_both : DesiredState → PipelineStatus → Update
set_both desired status = record no_update { desired_state = some desired; status = some status }

abbrev pub with_error : Text → Update → Update
with_error e u = record u { last_error = some e }

abbrev pub with_producer : Option Text → Update → Update
with_producer p u = record u { producer_container = some p }

abbrev pub with_consumer : Option Text → Update → Update
with_consumer c u = record u { consumer_container = some c }
