-- ===== src/Run/Outcome.antt =====
-- What a worker reports, whatever the forge, the exporters and the file system do.
use backup_git_repos.Base.{
  ℕ, ◌+◌, ◌≤◌, List, [], ◌∷◌, ◌++◌, false, ◌&&◌, arith, count_if, Bool-cases, inl, inr,
}
use backup_git_repos.FilePath.{FilePath, base, dir_of}
use backup_git_repos.Error.Steps.{Result-cases}
use backup_git_repos.World.{World, mkdir_all, mkdir_temp, log_line, debug}
use backup_git_repos.Repo.{Repo, wants}
use backup_git_repos.Metadata.{wants_metadata}
use backup_git_repos.Run.Types.{MetadataExporter, Runner, Options, MirrorOutcome, mirror_path}
use backup_git_repos.Run.Worker.{
  Exported, failed_outcome, export_one, export_all, export_metadata, archive_mirror, mirror_into,
  mirror_scratch, mirror_repo,
}
use backup_git_repos.Run.Loop.{one_if}

-- How many of the exporters a run selects.
abbrev pub selected : Options → List MetadataExporter → ℕ
selected opts exps =
    count_if (λ (e : MetadataExporter). wants_metadata opts.export_metadata e.kind) exps

-- An outcome that fits its repository: not synced means failed and nothing exported or archived;
-- archived or failed, if it was to be archived; and no more exports than the run selects.
pub record Fits (opts : Options) (repo : Repo) (runner : Runner) (o : MirrorOutcome) : Type 0 where
  pub accounted : 1 ≤ one_if o.synced + one_if o.failed
  pub archived_synced : one_if o.archived ≤ one_if o.synced
  pub archived_wanted : one_if o.archived ≤ one_if (wants opts.archive repo.archived)
  pub wanted_archived :
      one_if (wants opts.archive repo.archived) ≤ one_if o.archived + one_if o.failed
  pub exported : o.metadata_exported ≤ selected opts runner.exporters

module _ (opts : Options) (repo : Repo) where
  export_one-le :
      (exp : MetadataExporter) (x : Exported) (w : World)
      → (export_one opts repo exp (x, w)).0.0
        ≤ x.0 + one_if (wants_metadata opts.export_metadata exp.kind)
  unfolding export_one
  export_one-le exp x w = ground arith

  export_all-le :
      (exps : List MetadataExporter) (x : Exported) (w : World)
      → (export_all opts repo exps (x, w)).0.0 ≤ x.0 + selected opts exps
  unfolding export_all count_if
  export_all-le [] x w = omega arith
  export_all-le (exp ∷ exps) x w =
      let (x', w') = export_one opts repo exp (x, w) in
      omega (arith, export_all-le exps x' w', export_one-le exp x w)

  module _ (runner : Runner) where
    archive_mirror-Fits :
        (dir : FilePath) (x : Exported) (w : World)
        → x.0 ≤ selected opts runner.exporters
        → Fits opts repo runner (archive_mirror opts repo dir x w).0
    unfolding archive_mirror
    archive_mirror-Fits dir x w h = ground arith

    export_metadata-le :
        (w : World) → (export_metadata opts repo runner w).0.0 ≤ selected opts runner.exporters
    unfolding export_metadata
    export_metadata-le w = omega (arith, export_all-le runner.exporters (0, false) w)

    mirror_into-Fits :
        (dir : FilePath) (w : World) → Fits opts repo runner (mirror_into opts repo runner dir w).0
    unfolding mirror_into
    mirror_into-Fits dir w =
        let w₁ = (mkdir_all (dir_of dir) w).1 in
        let w₂ =
          (runner.sync (runner.remote repo) dir (log_line debug "mirroring" repo.path w₁)).1 in
        let (x, w₃) = export_metadata opts repo runner w₂ in
        ground (arith, archive_mirror-Fits dir x w₃ (export_metadata-le w₂))

    failed-Fits : Fits opts repo runner failed_outcome
    failed-Fits = ground arith

    -- Every outcome fits its repository.
    pub mirror_repo-Fits : (w : World) → Fits opts repo runner (mirror_repo opts repo runner w).0
    unfolding mirror_repo mirror_scratch
    mirror_repo-Fits w =
        let dir = mirror_path opts.dest repo.path in
        let (made, w₁) = mkdir_temp w in
        elim (Bool-cases (repo.archived && wants opts.archive repo.archived)) [
          | inl e ↦ rw e (elim (Result-cases made) [
            | inl (scratch, q) ↦ rw q (mirror_into-Fits (scratch ++ base dir ∷ []) w₁)
            | inr (x, q) ↦ rw q failed-Fits
          ])
          | inr e ↦ rw e (mirror_into-Fits dir w)
        ]
