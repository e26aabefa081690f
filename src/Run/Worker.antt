-- ===== src/Run/Worker.antt =====
-- internal/backup/run.go: the work on one repository. A failure is logged and reported in the
-- outcome. The contexts and their timeouts are not modelled: an expired one is an error of a call.
use backup_git_repos.Base.{
  Text, ℕ, ◌+◌, List, [], ◌∷◌, ◌++◌, Bool, true, false, ◌&&◌, if◌then◌else◌,
}
use backup_git_repos.FilePath.{FilePath, base, dir_of}
use backup_git_repos.World.{
  World, settle, log_line, debug, error, mkdir_all, mkdir_temp, remove_all,
}
use backup_git_repos.Archive.{archive_repo, ignoring}
use backup_git_repos.Repo.{Repo, wants}
use backup_git_repos.Metadata.{kind_text, wants_metadata, metadata_dir}
use backup_git_repos.Run.Types.{
  MetadataExporter, Runner, Options, MirrorOutcome, mirror_path, archive_path,
}

-- What the exporters did: how many succeeded, and whether any failed.
abbrev pub Exported : Type 0
Exported = ℕ × Bool

abbrev pub failed_outcome : MirrorOutcome
failed_outcome = record { synced = false; archived = false; failed = true; metadata_exported = 0 }

-- `log.Error` and `return mirrorOutcome{failed: true}`
abbrev fail_mirror : Text → World → MirrorOutcome × World
fail_mirror path w = (failed_outcome, log_line error "mirror failed" path w)

module _ (opts : Options) (repo : Repo) where
  -- One round of the loop of `exportMetadata`.
  unfoldable pub export_one : MetadataExporter → Exported × World → Exported × World
  export_one exp ((exported, failed), w) =
      let dir = metadata_dir opts.dest repo.path ++ kind_text exp.kind ∷ [] in
      let (made, w') = mkdir_all dir w in
      let (written, w'') = exp.export repo dir (log_line debug "exporting metadata" repo.path w') in
      if wants_metadata opts.export_metadata exp.kind
      then settle made
          (λ _. ((exported, true), log_line error "metadata export failed" repo.path w'))
          (λ _.
            settle written
              (λ _. ((exported, true), log_line error "metadata export failed" repo.path w''))
              (λ _. ((exported + 1, failed), w'')))
      else ((exported, failed), w)

  unfoldable pub export_all : List MetadataExporter → Exported × World → Exported × World
  export_all [] st = st
  export_all (exp ∷ exps) st = export_all exps (export_one exp st)

  unfoldable pub export_metadata : Runner → World → Exported × World
  export_metadata runner w = export_all runner.exporters ((0, false), w)

  -- The last part of `mirrorRepo`, once the mirror is synced and the metadata is exported.
  unfoldable pub archive_mirror : FilePath → Exported → World → MirrorOutcome × World
  archive_mirror dir (exported, failed) w =
      let out = archive_path opts.archive_dir repo.path in
      let (written, w') = archive_repo dir out (log_line debug "archiving" repo.path w) in
      let outcome = λ (archived : Bool) (broken : Bool).
        let o : MirrorOutcome = record {
          synced = true;
          archived = archived;
          failed = broken;
          metadata_exported = exported;
        } in
        o in
      if wants opts.archive repo.archived
      then settle written (λ _. (outcome false true, log_line error "archive failed" repo.path w'))
          (λ _. (outcome true failed, w'))
      else (outcome false failed, w)

  -- `mirrorRepo` from the point where the mirror's directory is known.
  unfoldable pub mirror_into : Runner → FilePath → World → MirrorOutcome × World
  mirror_into runner dir w =
      let (made, w₁) = mkdir_all (dir_of dir) w in
      settle made (λ _. fail_mirror repo.path w₁)
        λ _.
          let (done, w₂) =
            runner.sync (runner.remote repo) dir (log_line debug "mirroring" repo.path w₁) in
          settle done (λ _. fail_mirror repo.path w₂)
            λ _. let (exported, w₃) = export_metadata runner w₂ in archive_mirror dir exported w₃

  -- The scratch directory goes whatever the outcome.
  unfoldable pub mirror_scratch : Runner → FilePath → Text → World → MirrorOutcome × World
  mirror_scratch runner scratch name w =
      let (outcome, w₁) = mirror_into runner (scratch ++ name ∷ []) w in
      (outcome, ignoring (remove_all scratch) w₁)

  unfoldable pub mirror_repo : Runner → World → MirrorOutcome × World
  mirror_repo runner w =
      let dir = mirror_path opts.dest repo.path in
      let (made, w₁) = mkdir_temp w in
      if repo.archived && wants opts.archive repo.archived
      then settle made (λ _. fail_mirror repo.path w₁)
          (λ scratch. mirror_scratch runner scratch (base dir) w₁)
      else mirror_into runner dir w
