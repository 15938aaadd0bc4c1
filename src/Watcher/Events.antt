-- ===== src/Watcher/Events.antt =====
-- `on_created` and `_process` of services/task_manager/task_manager/app/folder_watcher.py. The handler's
-- lock makes each access of the set one step. The observer's thread handles one event at a time; a task
-- that outlasts its 30 seconds goes on beside it.
use live_streaming_data_pipe.Base.{
  Text, text_eq, codes, Bool, true, false, List, [], ◌∷◌, In, if◌then◌else◌,
}
use live_streaming_data_pipe.Base.Exec.{Exc, other, Result, ok, err}
use live_streaming_data_pipe.Json.{Py}
use live_streaming_data_pipe.Repo.Redis.{Redis}
use live_streaming_data_pipe.Runtime.{Provisioning}
use live_streaming_data_pipe.Watcher.Files.{FilePath, Files, stem_and_suffix, move_file}
use live_streaming_data_pipe.Watcher.Handle.{Validation, rejected, handle}

-- `FileCreatedEvent`
pub record Event : Type 0 where
  pub is_directory : Bool
  pub path : FilePath

-- `_DefinitionFileHandler`, with the names of the files of the tasks of `_process` that have not ended.
pub record Handler (World : Type 0) : Type 0 where
  pub watch_path : Text
  pub in_flight : List Text
  pub tasks : List Text
  pub world : World

-- How the wait for a task ends: the task ends in time, or it is still under way after 30 seconds, when it
-- and others have led to some world.
pub data Waited (World : Type 0) : Type 0 where
  in_time : Waited World
  expired : World → Waited World

abbrev pub timeout_error : Exc
timeout_error = record { kind = other; name = codes "TimeoutError"; message = [] }

-- `name in in_flight`
unfoldable pub is_in : Text → List Text → Bool
is_in t [] = false
is_in t (x ∷ xs) = if text_eq x t then true else is_in t xs

-- `in_flight.discard(name)`
unfoldable pub discard : Text → List Text → List Text
discard t [] = []
discard t (x ∷ xs) = if text_eq x t then discard t xs else x ∷ discard t xs

-- A task of this name has ended.
unfoldable pub remove_task : Text → List Text → List Text
remove_task t [] = []
remove_task t (x ∷ xs) = if text_eq x t then xs else x ∷ remove_task t xs

-- the `finally` of `_process`, and the end of its task, in the world that it has led to
unfoldable pub leave : {World : Type 0} → Text → World → Handler World → Handler World
unfolding discard remove_task
leave t w h = record h {
  in_flight = discard t h.in_flight;
  tasks = remove_task t h.tasks;
  world = w;
}

module _ (py : Py) (vd : Validation) (rd : Redis) (files : Files rd.World)
    (pv : Provisioning rd.World) where
  open rd use {World}

  -- `_process`, from beginning to end: the name is discarded however `_handle` ends.
  unfoldable pub process : FilePath → Handler World → Result (Unit {0}) × Handler World
  unfolding handle leave
  process fp h = let (r, w) = handle py vd rd files pv fp h.world in (r, leave fp.name w h)

  -- the handler of the `try` around `future.result`
  abbrev pub after_process :
      FilePath → Result (Unit {0}) × Handler World → Result (Unit {0}) × Handler World
  after_process fp (ok u, h) = (ok tt, h)
  after_process fp (err e, h) =
      let (r, w) = move_file files fp (rejected h.watch_path) h.world in (r, record h { world = w })

  -- `future.result(timeout=30)`
  abbrev pub wait : FilePath → Waited World → Handler World → Result (Unit {0}) × Handler World
  wait fp in_time h = process fp h
  wait fp (expired w) h = (err timeout_error, record h { world = w })

  abbrev pub submit : FilePath → Waited World → Handler World → Result (Unit {0}) × Handler World
  submit fp waited h =
      if is_in fp.name h.in_flight
      then (ok tt, h)
      else after_process fp (
          wait fp waited
            (record h { in_flight = fp.name ∷ h.in_flight; tasks = fp.name ∷ h.tasks }))

  unfoldable pub on_created :
      Event → Waited World → Handler World → Result (Unit {0}) × Handler World
  unfolding process is_in stem_and_suffix move_file
  on_created event waited h =
      if event.is_directory
      then (ok tt, h)
      else if text_eq (stem_and_suffix event.path.name).1 (codes ".json")
      then (if text_eq event.path.parent h.watch_path
          then submit event.path waited h
          else (ok tt, h))
      else (ok tt, h)

  -- The handler's steps: it handles an event, or a task that has outlasted its wait ends.
  pub data Reach (path : Text) : Handler World → Type 0 where
    start :
        (w : World)
        → Reach path (record { watch_path = path; in_flight = []; tasks = []; world = w })
    handles :
        (event : Event) (waited : Waited World) (h : Handler World)
        → Reach path h
        → Reach path (on_created event waited h).1
    ends :
        (t : Text) (w : World) (h : Handler World)
        → In t h.tasks
        → Reach path h
        → Reach path (leave t w h)
