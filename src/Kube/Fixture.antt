-- ===== src/Kube/Fixture.antt =====
-- A small cluster: the replicas of each deployment.
use live_streaming_data_pipe.Base.{
  ℕ, ◌≡◌, ◌≢◌, refl, sym, ap, ◌∙◌, Text, text_eq, text_eq_refl, text_eq-eq_false, codes, Option,
  none, some, [], if◌then◌else◌,
}
use mathlib.Core.Path.{subst}
use live_streaming_data_pipe.Base.Exec.{Exc, config_exception, api_exception, Result, ok, err}
use live_streaming_data_pipe.Kube.Cluster.{Cluster, Answers, name_in, replicas_in}

abbrev pub Replicas : Type 0
Replicas = Text → Option ℕ

abbrev pub set : Text → ℕ → Replicas → Replicas
set name n w k = if text_eq name k then some n else w k

abbrev api : ℕ → Exc
api n = record { kind = api_exception (some n); name = codes "ApiException"; message = [] }

abbrev pub outside : Exc
outside = record { kind = config_exception; name = codes "ConfigException"; message = [] }

abbrev set_to : Text → Option ℕ → Replicas → Result (Unit {0}) × Replicas
set_to name none w = (err (api 422), w)
set_to name (some n) w = (ok tt, set name n w)

abbrev create_if : Text → Option ℕ → Option ℕ → Replicas → Result (Unit {0}) × Replicas
create_if name size none w = set_to name size w
create_if name size (some n) w = (err (api 409), w)

abbrev create_named : Option Text → Option ℕ → Replicas → Result (Unit {0}) × Replicas
create_named none size w = (err (api 422), w)
create_named (some name) size w = create_if name size (w name) w

abbrev patch_by : Text → Option ℕ → Replicas → Result (Unit {0}) × Replicas
patch_by name none w = (ok tt, w)
patch_by name (some n) w = (ok tt, set name n w)

abbrev scale_if : Text → ℕ → Option ℕ → Replicas → Result (Unit {0}) × Replicas
scale_if name n none w = (err (api 404), w)
scale_if name n (some k) w = (ok tt, set name n w)

-- A cluster that the adapter is inside of.
abbrev pub inside : Cluster Replicas
inside = record {
  load_incluster_config = λ w. (ok tt, w);
  load_kube_config = λ c w. (ok tt, w);
  create_deployment = λ m w. create_named (name_in m) (replicas_in m) w;
  patch_deployment = λ name m w. patch_by name (replicas_in m) w;
  patch_scale = λ name n w. scale_if name n (w name) w;
  read_ready = λ name w. (ok (w name), w);
  list_pods = λ label w. (ok [], w);
  read_log = λ pod tail w. (ok [], w);
  now_iso = λ w. (codes "2026-01-01T00:00:00+00:00", w);
}

set_other : (name other : Text) (n : ℕ) (w : Replicas) → other ≢ name → set name n w other ≡ w other
set_other name other n w ne = rw (text_eq-eq_false name other (λ e. ne (sym e))) refl

set_same : (name : Text) (n : ℕ) (w : Replicas) → set name n w name ≡ some n
set_same name n w = rw (text_eq_refl name) refl

create_if_created :
    (name : Text) (n : ℕ) (o : Option ℕ) (w : Replicas)
    → (create_if name (some n) o w).0 ≡ ok tt
    → (create_if name (some n) o w).1 name ≡ some n
create_if_created name n none w h = set_same name n w
create_if_created name n (some k) w h = cc

create_if_other :
    (name other : Text) (size o : Option ℕ) (w : Replicas)
    → other ≢ name
    → (create_if name size o w).1 other ≡ w other
create_if_other name other none none w ne = refl
create_if_other name other (some n) none w ne = set_other name other n w ne
create_if_other name other size (some k) w ne = refl

patch_by_other :
    (name other : Text) (size : Option ℕ) (w : Replicas)
    → other ≢ name
    → (patch_by name size w).1 other ≡ w other
patch_by_other name other none w ne = refl
patch_by_other name other (some n) w ne = set_other name other n w ne

scale_if_scaled :
    (name : Text) (n : ℕ) (o : Option ℕ) (w : Replicas)
    → (scale_if name n o w).0 ≡ ok tt
    → (scale_if name n o w).1 name ≡ some n
scale_if_scaled name n none w h = cc
scale_if_scaled name n (some k) w h = set_same name n w

scale_if_gone :
    (name : Text) (n : ℕ) (o : Option ℕ) (w : Replicas) (e : Exc)
    → w name ≡ o
    → (scale_if name n o w).0 ≡ err e
    → (scale_if name n o w).1 name ≡ none
scale_if_gone name n none w e p h = p
scale_if_gone name n (some k) w e p h = cc

scale_if_other :
    (name other : Text) (n : ℕ) (o : Option ℕ) (w : Replicas)
    → other ≢ name
    → (scale_if name n o w).1 other ≡ w other
scale_if_other name other n none w ne = refl
scale_if_other name other n (some k) w ne = set_other name other n w ne

pub inside-Answers : Answers inside
inside-Answers = record {
  replicas = λ name w. w name;
  created = λ m name n w p q h.
      subst (λ (r : Result (Unit {0}) × Replicas). r.0 ≡ ok tt → r.1 name ≡ some n)
        (sym
          (ap (λ o. create_named o (replicas_in m) w) p ∙ ap (λ s. create_if name s (w name) w) q))
        (create_if_created name n (w name) w) h;
  patched = λ m name n w q h. rw q (set_same name n w);
  patched_else = λ m name w q. rw q refl;
  scaled = λ name n w h. scale_if_scaled name n (w name) w h;
  scaled_gone = λ name n w e h s. scale_if_gone name n (w name) w e refl h;
  created_other =
      λ m name other w p ne. rw p (create_if_other name other (replicas_in m) (w name) w ne);
  patched_other = λ m name other w ne. patch_by_other name other (replicas_in m) w ne;
  scaled_other = λ name other n w ne. scale_if_other name other n (w name) w ne;
  loaded_incluster = λ name w. refl;
  loaded_named = λ c name w. refl;
  incluster_status = λ e w h. cc;
  named_status = λ c e w h. cc;
  told_time = λ name w. refl;
}
