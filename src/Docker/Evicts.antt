-- ===== src/Docker/Evicts.antt =====
-- On `_cname` of services/task_manager/common/app_common/runtime/docker_runtime.py: two pipelines of one
-- name.
use live_streaming_data_pipe.Base.{
  ℕ, ◌≡◌, refl, sym, ap, ◌∙◌, Text, codes, replace, some, [], ◌∷◌, ◌++◌,
}
use live_streaming_data_pipe.Base.Exec.{Result, ok}
use live_streaming_data_pipe.Json.{Value}
use live_streaming_data_pipe.Model.{PipelineConfig}
use live_streaming_data_pipe.Sources.{Numbers}
use live_streaming_data_pipe.Telegraf.{Disk}
use live_streaming_data_pipe.Docker.{Daemon, Settings, cname, start_live_pipeline}
use live_streaming_data_pipe.Docker.Freed.{Answers}
use live_streaming_data_pipe.Docker.Owned.{
  Owned, owned, not_freed, not_rendered, not_run, start_live_pipeline-Owned,
}

replace-append :
    (s t : Text) (old new : ℕ) → replace (s ++ t) old new ≡ replace s old new ++ replace t old new
unfolding replace
replace-append [] t old new = refl
replace-append (c ∷ s) t old new = rw (replace-append s t old new) refl

-- A dot becomes a dash, so two ids have one name.
cname-dot : (role s t : Text) → cname role (s ++ (b'.' ∷ t)) ≡ cname role (s ++ (b'-' ∷ t))
unfolding cname
cname-dot role s t =
    rw (replace-append s (b'.' ∷ t) b'.' b'-', replace-append s (b'-' ∷ t) b'.' b'-')
      (unfold replace in refl)

module _ {World : Type 0} (d : Daemon World) (laws : Answers d) (ns : Numbers)
    (text_of : Value → Text) (disk : Disk) (settings : Settings) (config : PipelineConfig) where
  owner-Owned :
      (w : World) (x : Result (Text × Text) × World) (names : Text × Text)
      → Owned d laws ns text_of disk settings config w x
      → x.0 ≡ ok names
      → laws.owner (cname (codes "producer") config.pipeline_id) x.1 ≡ some config.pipeline_id
  owner-Owned w x names (owned v h apart) e = h
  owner-Owned w x names (not_freed y v p q apart) e = absurd cc
  owner-Owned w x names (not_rendered y v p q apart) e = absurd cc
  owner-Owned w x names (not_run t y u p q apart) e = absurd cc

  -- If a pipeline whose id has a dot is started and the start returns, then the container under the name
  -- of the pipeline whose id has a dash in its place is the container of the former: the producer of
  -- the latter, if it ran, is gone.
  pub start_live_pipeline-evicts :
      (s t : Text) (w : World) (names : Text × Text)
      → config.pipeline_id ≡ s ++ (b'.' ∷ t)
      → (start_live_pipeline d ns text_of disk settings config w).0 ≡ ok names
      → laws.owner
          (cname (codes "producer") (s ++ (b'-' ∷ t)))
          (start_live_pipeline d ns text_of disk settings config w).1
        ≡ some (s ++ (b'.' ∷ t))
  start_live_pipeline-evicts s t w names p e =
      let h =
        owner-Owned w (start_live_pipeline d ns text_of disk settings config w) names
          (start_live_pipeline-Owned d laws ns text_of disk settings config w) e in
      let same : cname (codes "producer") config.pipeline_id
          ≡ cname (codes "producer") (s ++ (b'-' ∷ t)) =
        ap (cname (codes "producer")) p ∙ cname-dot (codes "producer") s t in
      ap (λ n. laws.owner n (start_live_pipeline d ns text_of disk settings config w).1) (sym same)
      ∙ h
      ∙ ap some p
