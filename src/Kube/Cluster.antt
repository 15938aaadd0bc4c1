-- ===== src/Kube/Cluster.antt =====
-- What the adapter relies on of a Kubernetes cluster, in the adapter's namespace.
use live_streaming_data_pipe.Base.{ℕ, ◌≡◌, ◌≢◌, Text, codes, Option, none, some, List}
use live_streaming_data_pipe.Base.Dict.{lookup}
use live_streaming_data_pipe.Base.Int.{pos}
use live_streaming_data_pipe.Base.Exec.{Exc, ExcKind, api_exception, ok, err, Exec}
use live_streaming_data_pipe.Json.{Value, int, str, obj, entries}

-- A member of an object.
unfoldable pub member : Text → Option Value → Option Value
unfolding lookup entries
member k (some (obj fs)) = lookup k (entries fs)
member k v = none

abbrev pub text_in : Option Value → Option Text
text_in (some (str s)) = some s
text_in v = none

abbrev pub number_in : Option Value → Option ℕ
number_in (some (int (pos n))) = some n
number_in v = none

-- `manifest["metadata"]["name"]`
unfoldable pub name_in : Value → Option Text
unfolding member
name_in m = text_in (member (codes "name") (member (codes "metadata") (some m)))

-- `manifest["spec"]["replicas"]`
unfoldable pub replicas_in : Value → Option ℕ
unfolding member
replicas_in m = number_in (member (codes "replicas") (member (codes "spec") (some m)))

-- `exc.status` of an `ApiException`
abbrev pub status_of : ExcKind → Option ℕ
status_of (api_exception s) = s
status_of _ = none

pub record Cluster (World : Type 0) : Type 0 where
  pub load_incluster_config : Exec World (Unit {0})
  pub load_kube_config : Text → Exec World (Unit {0})
  pub create_deployment : Value → Exec World (Unit {0})
  pub patch_deployment : Text → Value → Exec World (Unit {0})
  pub patch_scale : Text → ℕ → Exec World (Unit {0})
  -- `ready_replicas` of `read_namespaced_deployment`
  pub read_ready : Text → Exec World (Option ℕ)
  -- the names of the pods with a label
  pub list_pods : Text → Exec World (List Text)
  pub read_log : Text → ℕ → Exec World Text
  pub now_iso : World → Text × World

-- The replicas that each deployment of the namespace asks for, and what the API documents of its calls.
pub record Answers {World : Type 0} (cl : Cluster World) : Type 0 where
  pub replicas : Text → World → Option ℕ
  pub created :
      (m : Value) (name : Text) (n : ℕ) (w : World)
      → name_in m ≡ some name
      → replicas_in m ≡ some n
      → (cl.create_deployment m w).0 ≡ ok tt
      → replicas name (cl.create_deployment m w).1 ≡ some n
  -- A patch sets what it names, and only that.
  pub patched :
      (m : Value) (name : Text) (n : ℕ) (w : World)
      → replicas_in m ≡ some n
      → (cl.patch_deployment name m w).0 ≡ ok tt
      → replicas name (cl.patch_deployment name m w).1 ≡ some n
  pub patched_else :
      (m : Value) (name : Text) (w : World)
      → replicas_in m ≡ none
      → replicas name (cl.patch_deployment name m w).1 ≡ replicas name w
  pub scaled :
      (name : Text) (n : ℕ) (w : World)
      → (cl.patch_scale name n w).0 ≡ ok tt
      → replicas name (cl.patch_scale name n w).1 ≡ some n
  pub scaled_gone :
      (name : Text) (n : ℕ) (w : World) (e : Exc)
      → (cl.patch_scale name n w).0 ≡ err e
      → status_of e.kind ≡ some 404
      → replicas name (cl.patch_scale name n w).1 ≡ none
  -- A call changes no deployment but the one that it names.
  pub created_other :
      (m : Value) (name other : Text) (w : World)
      → name_in m ≡ some name
      → other ≢ name
      → replicas other (cl.create_deployment m w).1 ≡ replicas other w
  pub patched_other :
      (m : Value) (name other : Text) (w : World)
      → other ≢ name
      → replicas other (cl.patch_deployment name m w).1 ≡ replicas other w
  pub scaled_other :
      (name other : Text) (n : ℕ) (w : World)
      → other ≢ name
      → replicas other (cl.patch_scale name n w).1 ≡ replicas other w
  pub loaded_incluster :
      (name : Text) (w : World) → replicas name (cl.load_incluster_config w).1 ≡ replicas name w
  pub loaded_named :
      (c name : Text) (w : World) → replicas name (cl.load_kube_config c w).1 ≡ replicas name w
  -- Loading a configuration reads files: it raises no `ApiException`.
  pub incluster_status :
      (e : Exc) (w : World) → (cl.load_incluster_config w).0 ≡ err e → status_of e.kind ≡ none
  pub named_status :
      (c : Text) (e : Exc) (w : World)
      → (cl.load_kube_config c w).0 ≡ err e
      → status_of e.kind ≡ none
  pub told_time : (name : Text) (w : World) → replicas name (cl.now_iso w).1 ≡ replicas name w
