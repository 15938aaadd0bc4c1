-- ===== src/Watcher/Tasks.antt =====
-- On `on_created` and `_process` of services/task_manager/task_manager/app/folder_watcher.py: the names in
-- flight and the tasks.
use live_streaming_data_pipe.Base.{
  ◌≡◌, refl, ap, sym, ◌∙◌, Text, text_eq, text_eq_iff, codes, false, Bool-cases, inl, inr, arith,
  List, [], ◌∷◌,
}
use live_streaming_data_pipe.Base.Exec.{Result, ok, err}
use live_streaming_data_pipe.Json.{Py}
use live_streaming_data_pipe.Repo.Redis.{Redis}
use live_streaming_data_pipe.Runtime.{Provisioning}
use live_streaming_data_pipe.Watcher.Files.{FilePath, Files, stem_and_suffix}
use live_streaming_data_pipe.Watcher.Handle.{Validation, handle}
use live_streaming_data_pipe.Watcher.Events.{
  Event, Handler, Waited, in_time, expired, is_in, discard, remove_task, leave, process,
  after_process, wait, submit, on_created, Reach, start, handles, ends,
}

-- No name stands twice.
abbrev pub Once : List Text → Type 0
Once [] = Unit {0}
Once (x ∷ xs) = (is_in x xs ≡ false) × Once xs

-- No two tasks have one name, and the names in flight are the names of the tasks.
pub record Exact {World : Type 0} (h : Handler World) : Type 0 where
  pub once : Once h.tasks
  pub same : h.in_flight ≡ h.tasks

discard_absent : (t : Text) (xs : List Text) → is_in t xs ≡ false → discard t xs ≡ xs
unfolding discard is_in
discard_absent t [] h = refl
discard_absent t (x ∷ xs) h = ground (arith, discard_absent t xs)

is_in-remove_task :
    (s t : Text) (xs : List Text) → is_in s xs ≡ false → is_in s (remove_task t xs) ≡ false
unfolding is_in remove_task
is_in-remove_task s t [] h = refl
is_in-remove_task s t (x ∷ xs) h = ground (arith, is_in-remove_task s t xs)

remove_task-Once : (t : Text) (xs : List Text) → Once xs → Once (remove_task t xs)
unfolding remove_task
remove_task-Once t [] h = tt
remove_task-Once t (x ∷ xs) h = elim (Bool-cases (text_eq x t)) [
  | inl same ↦ rw same h.1
  | inr other ↦ rw other (is_in-remove_task x t xs h.0, remove_task-Once t xs h.1)
]

discard-remove_task : (t : Text) (xs : List Text) → Once xs → discard t xs ≡ remove_task t xs
unfolding discard remove_task
discard-remove_task t [] h = refl
discard-remove_task t (x ∷ xs) h = ground (
  arith,
  text_eq_iff x t,
  discard-remove_task t xs h.1,
  discard_absent x xs h.0,
  discard_absent t xs,
)

leave-Exact :
    {World : Type 0} (t : Text) (w : World) (h : Handler World) → Exact h → Exact (leave t w h)
unfolding leave
leave-Exact t w h e = record {
  once = remove_task-Once t h.tasks e.once;
  same = ap (discard t) e.same ∙ discard-remove_task t h.tasks e.once;
}

module _ (py : Py) (vd : Validation) (rd : Redis) (files : Files rd.World)
    (pv : Provisioning rd.World) where
  open rd use {World}

  after_process-Exact :
      (fp : FilePath) (x : Result (Unit {0}) × Handler World)
      → Exact x.1
      → Exact (after_process py vd rd files pv fp x).1
  after_process-Exact fp (ok u, h) e = e
  after_process-Exact fp (err x, h) e = record { once = e.once; same = e.same }

  wait-Exact :
      (fp : FilePath) (waited : Waited World) (h : Handler World)
      → Exact h
      → Exact (wait py vd rd files pv fp waited h).1
  unfolding process
  wait-Exact fp in_time h e = leave-Exact fp.name (handle py vd rd files pv fp h.world).1 h e
  wait-Exact fp (expired w) h e = record { once = e.once; same = e.same }

  submit-Exact :
      (fp : FilePath) (waited : Waited World) (h : Handler World)
      → Exact h
      → Exact (submit py vd rd files pv fp waited h).1
  submit-Exact fp waited h e = elim (Bool-cases (is_in fp.name h.in_flight)) [
    | inl busy ↦ rw busy e
    | inr idle ↦ rw idle (
        let added : Handler World = record h {
          in_flight = fp.name ∷ h.in_flight;
          tasks = fp.name ∷ h.tasks;
        } in
        after_process-Exact fp (wait py vd rd files pv fp waited added) (
          wait-Exact fp waited added (record {
            once = (ap (is_in fp.name) (sym e.same) ∙ idle, e.once);
            same = ap (λ xs. fp.name ∷ xs) e.same;
          })))
  ]

  on_created-Exact :
      (event : Event) (waited : Waited World) (h : Handler World)
      → Exact h
      → Exact (on_created py vd rd files pv event waited h).1
  unfolding on_created
  on_created-Exact event waited h e = elim (Bool-cases event.is_directory) [
    | inl directory ↦ simp directory e
    | inr file ↦
        simp file (elim (Bool-cases (text_eq (stem_and_suffix event.path.name).1 (codes ".json"))) [
          | inr other ↦ simp other e
          | inl json ↦ simp json (elim (Bool-cases (text_eq event.path.parent h.watch_path)) [
            | inr elsewhere ↦ simp elsewhere e
            | inl here ↦ simp here (submit-Exact event.path waited h e)
          ])
        ])
  ]

  -- Whatever events arrive, whether each task ends within the 30 seconds or outlasts them and ends
  -- later, no two tasks of one file name are ever under way, and the names in flight are those of the
  -- tasks under way: a name stays in flight just as long as its task goes on.
  pub Reach-Exact : (path : Text) (h : Handler World) → Reach py vd rd files pv path h → Exact h
  Reach-Exact path _ (start w) = record { once = tt; same = refl }
  Reach-Exact path _ (handles event waited h r) =
      on_created-Exact event waited h (Reach-Exact path h r)
  Reach-Exact path _ (ends t w h i r) = leave-Exact t w h (Reach-Exact path h r)
