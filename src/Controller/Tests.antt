-- ===== src/Controller/Tests.antt =====
-- The theorems of Controller/Outcome.antt at a known pipeline, and what the loop decides of it.
use live_streaming_data_pipe.Base.{◌≡◌, refl, codes, false, some}
use live_streaming_data_pipe.Model.{PipelineState, running, stopping, want_running}
use live_streaming_data_pipe.Base.Exec.{ok, err}
use live_streaming_data_pipe.Repo.Keys.{pipeline_config_key, pipeline_state_key}
use live_streaming_data_pipe.Repo.Store.{get_config, get_state}
use live_streaming_data_pipe.Repo.Codec.{load, dump}
use live_streaming_data_pipe.Repo.Tests.{p1_config, state_named, rd, stored}
use live_streaming_data_pipe.Api.Outcome.{Known}
use live_streaming_data_pipe.Api.Tests.{no_stop, adapter, adapter-IsApart}
use live_streaming_data_pipe.Controller.{is_up, is_already_stopped, needs_act, act}
use live_streaming_data_pipe.Controller.Settled.{Settled, act-Settled}
use live_streaming_data_pipe.Controller.Outcome.{Leaves, Launched, Halted, act-Launched, act-Halted}

abbrev wanted : PipelineState
wanted = record (state_named (codes "p1")) { desired_state = want_running }

abbrev unwanted : PipelineState
unwanted = record (state_named (codes "p1")) { status = running }

abbrev with_state : PipelineState → rd.World
with_state s = rd.set (pipeline_state_key (codes "p1")) (dump s) stored

wanted-Known : Known rd adapter (codes "p1") wanted (with_state wanted)
unfolding get_config get_state pipeline_config_key pipeline_state_key load dump
wanted-Known = record {
  config = p1_config;
  has_config = refl;
  is_live = refl;
  own_id = refl;
  has_state = refl;
}

unwanted-Known : Known rd adapter (codes "p1") unwanted (with_state unwanted)
unfolding get_config get_state pipeline_config_key pipeline_state_key load dump
unwanted-Known = record {
  config = p1_config;
  has_config = refl;
  is_live = refl;
  own_id = refl;
  has_state = refl;
}

act-Launched_example :
    Leaves rd adapter
      (Launched (ok (codes "producer-p1", codes "pool")))
      (codes "p1")
      (act rd adapter (codes "p1") (with_state wanted))
unfolding is_up
act-Launched_example =
    act-Launched rd adapter adapter-IsApart (codes "p1") wanted (with_state wanted) wanted-Known
      refl refl

act-Halted_example :
    Leaves rd adapter
      (Halted (err no_stop))
      (codes "p1")
      (act rd adapter (codes "p1") (with_state unwanted))
unfolding is_already_stopped
act-Halted_example =
    act-Halted rd adapter adapter-IsApart (codes "p1") unwanted (with_state unwanted) unwanted-Known
      refl refl

-- The loop leaves a pipeline alone that is wanted running and stopping; `_act` does not.
stopping_left_alone :
    needs_act (some (record wanted { status = stopping })) (some p1_config) ≡ false
unfolding needs_act
stopping_left_alone = refl

act-Settled_example :
    Leaves rd adapter Settled (codes "p1") (act rd adapter (codes "p1") (with_state wanted))
act-Settled_example =
    act-Settled rd adapter adapter-IsApart (codes "p1") wanted (with_state wanted) wanted-Known
