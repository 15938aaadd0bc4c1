-- ===== src/Watcher/Tests.antt =====
-- The theorems on the folder watcher at a directory with a few files.
use live_streaming_data_pipe.Base.{
  ◌≡◌, refl, Text, text_eq, text_eq_iff, codes, Bool, true, false, Bool-cases, inl, inr, some, none,
  Option, List, [], ◌∷◌, In, if◌then◌else◌,
}
use live_streaming_data_pipe.Base.Int.{nat_str}
use live_streaming_data_pipe.Base.Exec.{Exc, os_error, validation_error, Result, ok, err, ◌>>=◌}
use live_streaming_data_pipe.Json.{null, end, parsed, Py}
use live_streaming_data_pipe.Model.{opcua}
use live_streaming_data_pipe.Repo.Keys.{
  pipeline_config_key, pipeline_state_key, collection_counter_key,
}
use live_streaming_data_pipe.Repo.Store.{get_config, next_collection_number}
use live_streaming_data_pipe.Repo.Tests.{p1_config, rd}
use live_streaming_data_pipe.Runtime.{Provisioning}
use live_streaming_data_pipe.Watcher.Files.{FilePath, Files, below, IsListed, dropped, move_file}
use live_streaming_data_pipe.Watcher.Move.{move_file-free}
use live_streaming_data_pipe.Watcher.Handle.{Definition, Validation, handle}
use live_streaming_data_pipe.Watcher.Ends.{IsApart, Filed}
use live_streaming_data_pipe.Watcher.Filed.{handle-Filed}
use live_streaming_data_pipe.Watcher.Events.{
  Event, Handler, expired, in_time, leave, on_created, Reach, start, handles, ends,
}
use live_streaming_data_pipe.Watcher.Tasks.{Exact, Reach-Exact}

-- A directory by the names in it.
abbrev is_named : Text → List Text → Bool
is_named t [] = false
is_named t (x ∷ xs) = if text_eq x t then true else is_named t xs

In-named : (t : Text) (xs : List Text) → is_named t xs ≡ true → In t xs
In-named t [] h = absurd cc
In-named t (x ∷ xs) h = elim (Bool-cases (text_eq x t)) [
  | inl same ↦ inl ((text_eq_iff x t).0 same)
  | inr differ ↦ inr (In-named t xs (cc (h, differ)))
]

-- One directory, whatever the parent; a move adds a name.
abbrev names_only : Files (List Text)
names_only = record {
  exists = λ p w. is_named p.name w;
  is_file = λ p w. is_named p.name w;
  entries = λ folder w. w;
  read_text = λ p w. (ok [], w);
  mkdir = λ folder w. (ok tt, w);
  move = λ p q w. (ok tt, q.name ∷ w);
}

names_only-IsListed : IsListed names_only
names_only-IsListed p w h = In-named p.name w h

abbrev two_names : List Text
two_names = codes "a.json" ∷ codes "a.1.json" ∷ []

abbrev a_json : FilePath
a_json = record { parent = codes "inbox"; name = codes "a.json" }

move_file-free_example :
    (target : Text) × (names_only.exists (record { parent = codes "done"; name = target }) two_names
      ≡ false)
    × (move_file names_only a_json (codes "done") two_names
        ≡ dropped names_only
            (names_only.move a_json (record { parent = codes "done"; name = target }) two_names))
move_file-free_example =
    move_file-free names_only a_json (codes "done") two_names names_only-IsListed refl

moved_to_next :
    move_file names_only a_json (codes "done") two_names
    ≡ (ok tt, codes "a.2.json" ∷ codes "a.json" ∷ codes "a.1.json" ∷ [])
unfolding move_file nat_str ◌>>=◌
moved_to_next = refl

-- Files kept beside the keys of Redis, under their paths.
abbrev path_of : FilePath → Text
path_of p = below p.parent p.name

abbrev is_there : Option Text → Bool
is_there none = false
is_there (some t) = true

abbrev missing : Exc
missing = record { kind = os_error; name = codes "FileNotFoundError"; message = [] }

abbrev content : Option Text → Result Text
content none = err missing
content (some t) = ok t

abbrev stored_files : Files rd.World
stored_files = record {
  exists = λ p w. is_there (rd.get (path_of p) w);
  is_file = λ p w. is_there (rd.get (path_of p) w);
  entries = λ folder w. [];
  read_text = λ p w. (content (rd.get (path_of p) w), w);
  mkdir = λ folder w. (ok tt, w);
  move = λ p q w. (ok tt, rd.set (path_of q) (codes "moved") (rd.delete (path_of p) w));
}

abbrev py : Py
py = record {
  loads = λ t. parsed null;
  to_float = λ v. ok 0;
  float_is_zero = λ n. true;
  from_timestamp_ms = λ n. ok 0;
  isoformat = λ n. [];
  to_str = λ v. [];
  repr = λ v. [];
}

abbrev p2_definition : Definition
p2_definition = record {
  pipeline_id = codes "p2";
  source_type = codes "opcua";
  topic = none;
  batch_size = 100;
  flush_interval_seconds = 10;
  source_options = end;
}

abbrev accepting : Validation
accepting = record {
  model_validate = λ v. ok p2_definition;
  typed_options = λ t fs. ok (opcua, p1_config.source_options);
}

abbrev no_endpoint : Exc
no_endpoint = record {
  kind = validation_error;
  name = codes "ValidationError";
  message = codes "endpoint: field required";
}

-- A definition whose options lack what the source type asks for.
abbrev refusing : Validation
refusing = record {
  model_validate = λ v. ok p2_definition;
  typed_options = λ t fs. err no_endpoint;
}

abbrev provisioned : Provisioning rd.World
provisioned = record {
  provision = λ c w. (ok tt, w);
  wait_for_drain = λ c w. (ok true, w);
  delete_topic = λ c w. (ok tt, w);
}

provisioned-IsApart : IsApart rd provisioned
provisioned-IsApart = record { at_provision = λ c k w. refl }

abbrev with_file : rd.World
with_file = rd.set (path_of a_json) (codes "{}") (λ k. none)

handle-Filed_example :
    Filed py accepting rd stored_files provisioned a_json with_file
      (handle py accepting rd stored_files provisioned a_json with_file)
handle-Filed_example =
    handle-Filed py accepting rd stored_files provisioned a_json with_file provisioned-IsApart

-- That run registers the pipeline and moves the file.
registered_and_moved :
    let w = (handle py accepting rd stored_files provisioned a_json with_file).1 in
    (w (pipeline_config_key (codes "p2")) ≡ some (codes "{}"))
    × (w (codes "inbox/processed/a.json") ≡ some (codes "moved"))
    × (w (codes "inbox/a.json") ≡ none)
unfolding handle move_file get_config next_collection_number pipeline_config_key pipeline_state_key
    collection_counter_key ◌>>=◌
registered_and_moved = (refl, refl, refl)

-- A run that raises the refusal of the options, uses up a collection number, and moves no file.
refused_options :
    handle py refusing rd stored_files provisioned a_json with_file
    ≡ (err no_endpoint, (next_collection_number rd (codes "0") with_file).1)
unfolding handle get_config next_collection_number pipeline_config_key collection_counter_key ◌>>=◌
refused_options = refl

abbrev created_event : Event
created_event = record { is_directory = false; path = a_json }

abbrev at_rest : Handler rd.World
at_rest = record { watch_path = codes "inbox"; in_flight = []; tasks = []; world = with_file }

-- The file's task outlasts its 30 seconds, and the file is moved away below it.
abbrev waited_for : Handler rd.World
waited_for =
    (on_created py refusing rd stored_files provisioned created_event (expired with_file) at_rest).1

still_there :
    (waited_for.in_flight ≡ codes "a.json" ∷ []) × (waited_for.tasks ≡ codes "a.json" ∷ [])
unfolding on_created
still_there = (refl, refl)

-- A second event of the name is passed over.
abbrev passed_over : Handler rd.World
passed_over =
    (on_created py refusing rd stored_files provisioned created_event in_time waited_for).1

reached : Reach py refusing rd stored_files provisioned (codes "inbox") passed_over
reached =
    handles created_event in_time waited_for
      (handles created_event (expired with_file) at_rest (start with_file))

one_task : In (codes "a.json") passed_over.tasks
unfolding on_created
one_task = inl refl

Reach-Exact_example : Exact (leave (codes "a.json") with_file passed_over)
Reach-Exact_example =
    Reach-Exact py refusing rd stored_files provisioned (codes "inbox")
      (leave (codes "a.json") with_file passed_over)
      (ends (codes "a.json") with_file passed_over one_task reached)
