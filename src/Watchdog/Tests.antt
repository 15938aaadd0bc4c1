-- ===== src/Watchdog/Tests.antt =====
-- A restart of a known pipeline.
use live_streaming_data_pipe.Base.{ℕ, Text}
use live_streaming_data_pipe.Base.Exec.{ok, Exec}
use live_streaming_data_pipe.Repo.Tests.{rd}

abbrev no_age : Text → Exec rd.World ℕ
no_age t w = (ok 0, w)
