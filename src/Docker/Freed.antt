-- ===== src/Docker/Freed.antt =====
-- On `DockerRuntimeAdapter` of services/task_manager/common/app_common/runtime/docker_runtime.py: what
-- frees a name.
use live_streaming_data_pipe.Base.{
  ℕ, ◌≡◌, ◌≢◌, inl, inr, refl, ◌∙◌, Text, codes, true, false, Bool-cases, Option, none, some,
}
use live_streaming_data_pipe.Base.Exec.{Exc, Result, ok, err, continue, ◌>>=◌}
use live_streaming_data_pipe.Base.Dict.{lookup}
use live_streaming_data_pipe.Docker.{
  Run, Daemon, is_not_found, unless_gone, remove_if_exists, stop_then_remove, stop_and_remove,
}

-- The pipeline that the container of each name is labelled with, and what the daemon documents of its calls.
pub record Answers {World : Type 0} (d : Daemon World) : Type 1 where
  pub owner : Text → World → Option Text
  -- The id is that of the container of the name.
  pub Is : Text → Text → World → Type 0
  pub got : (name c : Text) (w : World) → (d.get name w).0 ≡ ok c → Is c name (d.get name w).1
  pub got_none :
      (name : Text) (e : Exc) (w : World)
      → (d.get name w).0 ≡ err e
      → is_not_found e.kind ≡ true
      → owner name (d.get name w).1 ≡ none
  pub got_keeps : (name other : Text) (w : World) → owner other (d.get name w).1 ≡ owner other w
  pub stopped :
      (c name : Text) (t : ℕ) (w : World)
      → Is c name w
      → (d.stop c t w).0 ≡ ok tt
      → Is c name (d.stop c t w).1
  pub stopped_gone :
      (c name : Text) (t : ℕ) (e : Exc) (w : World)
      → Is c name w
      → (d.stop c t w).0 ≡ err e
      → is_not_found e.kind ≡ true
      → owner name (d.stop c t w).1 ≡ none
  pub stopped_keeps :
      (c name other : Text) (t : ℕ) (w : World)
      → Is c name w
      → other ≢ name
      → owner other (d.stop c t w).1 ≡ owner other w
  pub removed :
      (c name : Text) (w : World)
      → Is c name w
      → (d.remove c w).0 ≡ ok tt
      → owner name (d.remove c w).1 ≡ none
  pub removed_gone :
      (c name : Text) (e : Exc) (w : World)
      → Is c name w
      → (d.remove c w).0 ≡ err e
      → is_not_found e.kind ≡ true
      → owner name (d.remove c w).1 ≡ none
  pub removed_keeps :
      (c name other : Text) (w : World)
      → Is c name w
      → other ≢ name
      → owner other (d.remove c w).1 ≡ owner other w
  pub ran :
      (r : Run) (pid : Text) (w : World)
      → lookup (codes "data-platform.pipeline_id") r.labels ≡ some pid
      → (d.run r w).0 ≡ ok tt
      → owner r.name (d.run r w).1 ≡ some pid
  pub ran_keeps :
      (r : Run) (other : Text) (w : World)
      → other ≢ r.name
      → owner other (d.run r w).1 ≡ owner other w

module _ {World : Type 0} (d : Daemon World) (laws : Answers d) where
  -- The names but `name` have the containers that they had.
  abbrev pub Apart : Text → World → World → Type 0
  Apart name w v = (other : Text) → other ≢ name → laws.owner other v ≡ laws.owner other w

  -- The end of a removal, by the part `body` of it that may raise: the name is free, or `body` has raised
  -- something else than `NotFound`.
  pub data Freed (name : Text) (w : World) (body : Result (Unit {0}))
      : Result (Unit {0}) × World → Type 0 where
    freed : (v : World) → laws.owner name v ≡ none → Apart name w v → Freed name w body (ok tt, v)
    failed :
        (e : Exc) (v : World)
        → body ≡ err e
        → is_not_found e.kind ≡ false
        → Apart name w v
        → Freed name w body (err e, v)

  -- What ends a removal, where `NotFound` means that nobody has the name.
  unless_gone-Freed :
      (name : Text) (w v : World) (r : Result (Unit {0}))
      → (r ≡ ok tt → laws.owner name v ≡ none)
      → ((e : Exc) → r ≡ err e → is_not_found e.kind ≡ true → laws.owner name v ≡ none)
      → Apart name w v
      → Freed name w r (unless_gone d (r, v))
  unless_gone-Freed name w v (ok u) done gone apart = freed v (done refl) apart
  unless_gone-Freed name w v (err e) done gone apart = elim (Bool-cases (is_not_found e.kind)) [
    | inl missing ↦ rw missing (freed v (gone e refl missing) apart)
    | inr other ↦ rw other (failed e v refl other apart)
  ]

  removed-Freed :
      (name : Text) (w : World) (r : Result Text)
      → (d.get name w).0 ≡ r
      → let x = continue r d.remove (d.get name w).1 in Freed name w x.0 (unless_gone d x)
  removed-Freed name w (ok c) h =
      let w1 = (d.get name w).1 in
      let is = laws.got name c w h in
      unless_gone-Freed name w (d.remove c w1).1 (d.remove c w1).0 (laws.removed c name w1 is)
        (λ e. laws.removed_gone c name e w1 is)
        (λ other ne. laws.removed_keeps c name other w1 is ne ∙ laws.got_keeps name other w)
  removed-Freed name w (err e) h =
      unless_gone-Freed name w (d.get name w).1 (err e) (λ p. absurd cc)
        (λ x p. laws.got_none name x w (cc)) (λ other ne. laws.got_keeps name other w)

  stopped-Freed :
      (name c : Text) (w v : World) (r : Result (Unit {0}))
      → laws.Is c name v
      → Apart name w v
      → (d.stop c 15 v).0 ≡ r
      → let x = continue r (λ u. d.remove c) (d.stop c 15 v).1 in Freed name w x.0 (unless_gone d x)
  stopped-Freed name c w v (ok u) is apart h =
      let v1 = (d.stop c 15 v).1 in
      let is1 = laws.stopped c name 15 v is h in
      unless_gone-Freed name w (d.remove c v1).1 (d.remove c v1).0 (laws.removed c name v1 is1)
        (λ e. laws.removed_gone c name e v1 is1)
        (λ other ne.
          laws.removed_keeps c name other v1 is1 ne
          ∙ laws.stopped_keeps c name other 15 v is ne
          ∙ apart other ne)
  stopped-Freed name c w v (err e) is apart h =
      unless_gone-Freed name w (d.stop c 15 v).1 (err e) (λ p. absurd cc)
        (λ x p. laws.stopped_gone c name 15 x v is (h ∙ p))
        (λ other ne. laws.stopped_keeps c name other 15 v is ne ∙ apart other ne)

  got-Freed :
      (name : Text) (w : World) (r : Result Text)
      → (d.get name w).0 ≡ r
      → let x = continue r (stop_then_remove d) (d.get name w).1 in
        Freed name w x.0 (unless_gone d x)
  unfolding ◌>>=◌
  got-Freed name w (ok c) h =
      let w1 = (d.get name w).1 in
      stopped-Freed name c w w1 (d.stop c 15 w1).0 (laws.got name c w h)
        (λ other ne. laws.got_keeps name other w) refl
  got-Freed name w (err e) h =
      unless_gone-Freed name w (d.get name w).1 (err e) (λ p. absurd cc)
        (λ x p. laws.got_none name x w (cc)) (λ other ne. laws.got_keeps name other w)

  pub remove_if_exists-Freed :
      (name : Text) (w : World)
      → Freed name w ((d.get name >>= d.remove) w).0 (remove_if_exists d name w)
  unfolding remove_if_exists ◌>>=◌
  remove_if_exists-Freed name w = removed-Freed name w (d.get name w).0 refl

  pub stop_and_remove-Freed :
      (name : Text) (w : World)
      → Freed name w ((d.get name >>= stop_then_remove d) w).0 (stop_and_remove d name w)
  unfolding stop_and_remove ◌>>=◌
  stop_and_remove-Freed name w = got-Freed name w (d.get name w).0 refl
