-- ===== src/Run/Outside.antt =====
-- internal/backup/run.go: a run keeps to the destination, the directory of the archives and its
-- scratch directory.
pub mod Whole
use backup_git_repos.Base.{
  Text, text, ℕ, List, [], ◌∷◌, ◌++◌, Bool, true, false, ◌&&◌, ◌≡◌, ◌≢◌, refl, sym, ◌∙◌, ap, arith,
  inl, inr, All, Bool-cases, length, split_on, append_last, append_assoc, lacks, subst,
}
use backup_git_repos.FilePath.{FilePath, base, dir_of}
use backup_git_repos.FilePath.Join.{ParentNames, join-suffix}
use backup_git_repos.Fs.{get}
use backup_git_repos.Fs.Update.{at_or_above, Apart}
use backup_git_repos.Error.{ok, err}
use backup_git_repos.Error.Steps.{Result-cases}
use backup_git_repos.World.{
  World, Io, settle, log_line, debug, error, mkdir_all, mkdir_temp, remove_all,
}
use backup_git_repos.World.Near.{
  Near, Near-trans, mkdir_all-Near, mkdir_temp-Near, remove_all-Near, remove-Near, Apart-below,
  dir_of-append,
}
use backup_git_repos.Archive.{archive_repo, ignoring}
use backup_git_repos.Archive.Near.{archive_repo-Near}
use backup_git_repos.Repo.{Repo, State, wants}
use backup_git_repos.Metadata.{metadata_dir, kind_text, wants_metadata}
use backup_git_repos.Run.Types.{
  Remote, MetadataExporter, Runner, Options, mirror_path, archive_path,
}
use backup_git_repos.Run.Paths.{mirror_path-parts, archive_path-parts, mirror_parts}
use backup_git_repos.Run.Worker.{
  Exported, export_one, export_all, export_metadata, archive_mirror, mirror_into, mirror_scratch,
  mirror_repo,
}

-- A call that is given a place below a directory changes nothing apart from the directory.
abbrev pub StaysBelow : {A : Type 0} → (FilePath → Io A) → Type 0
StaysBelow m =
    (dir root rest q : FilePath) (w : World)
    → dir ≡ root ++ rest
    → rest ≢ []
    → Apart root q
    → Near q (m dir w).1 w

-- A runner whose listing changes nothing, and whose clones and exports stay where they are put.
pub record IsConfined (runner : Runner) : Type 0 where
  pub lists : (state : State) (q : FilePath) (w : World) → Near q (runner.list_repos state w).1 w
  pub syncs : (remote : Remote) → StaysBelow (runner.sync remote)
  pub exports :
      All
        (λ (exp : MetadataExporter). (repo : Repo) → StaysBelow (exp.export repo))
        runner.exporters

-- The names of a repository's path are names of directories, but for the last.
abbrev pub IsNamed : Text → Type 0
IsNamed path = ParentNames (split_on b'/' path)

metadata_dir-parts :
    (dest : FilePath) (path : Text)
    → IsNamed path
    → metadata_dir dest path ≡ dest ++ append_last (text ".metadata") (split_on b'/' path)
unfolding metadata_dir lacks
metadata_dir-parts dest path h = join-suffix dest path b'.' b'm' b'e' (text "tadata") h refl

append_last-ne : (suffix : Text) (parts : List Text) → append_last suffix parts ≢ []
unfolding append_last
append_last-ne suffix [] h = cc h
append_last-ne suffix (s ∷ []) h = cc h
append_last-ne suffix (s ∷ t ∷ parts) h = cc h

append-ne : (parts : List Text) (name : Text) → parts ++ name ∷ [] ≢ []
append-ne [] name h = cc h
append-ne (s ∷ parts) name h = cc h

-- A place apart from all that a run may change.
pub record IsOutside (opts : Options) (q : FilePath) (w : World) : Type 0 where
  pub dest : Apart opts.dest q
  pub archive_dir : Apart opts.archive_dir q
  pub scratch : Apart w.env.temp_name q

mkdir_temp-path : (w : World) (p : FilePath) → (mkdir_temp w).0 ≡ ok p → p ≡ w.env.temp_name
unfolding mkdir_temp
mkdir_temp-path w p h = ground arith

module _ (runner : Runner) (confined : IsConfined runner) (opts : Options) (q : FilePath) where
  pub moved-IsOutside : (v w : World) → Near q v w → IsOutside opts q w → IsOutside opts q v
  moved-IsOutside v w h out = record {
    dest = out.dest;
    archive_dir = out.archive_dir;
    scratch = rw h.1 out.scratch;
  }

  module _ (repo : Repo) (named : IsNamed repo.path) (dest_far : Apart opts.dest q) where
    export_one-Near :
        (exp : MetadataExporter) (c : Exported) (w : World)
        → ((r : Repo) → StaysBelow (exp.export r))
        → Near q (export_one opts repo exp (c, w)).1 w
    unfolding export_one log_line
    export_one-Near exp (exported, failed) w stays =
        let parts = append_last (text ".metadata") (split_on b'/' repo.path) in
        let rest = parts ++ kind_text exp.kind ∷ [] in
        let dir = metadata_dir opts.dest repo.path ++ kind_text exp.kind ∷ [] in
        let below : dir ≡ opts.dest ++ rest =
          rw (metadata_dir-parts opts.dest repo.path named)
            (append_assoc opts.dest parts (kind_text exp.kind ∷ [])) in
        let w₁ = log_line debug "exporting metadata" repo.path (mkdir_all dir w).1 in
        let made : Near q (mkdir_all dir w).1 w =
          mkdir_all-Near q dir w (rw below (Apart-below opts.dest rest q dest_far).1) in
        let written : Near q (exp.export repo dir w₁).1 w₁ =
          stays repo dir opts.dest rest q w₁ below (append-ne parts (kind_text exp.kind))
            dest_far in
        ground (arith, made.0, made.1, written.0, written.1)

    export_all-Near :
        (exps : List MetadataExporter) (st : Exported × World)
        → All (λ (exp : MetadataExporter). (r : Repo) → StaysBelow (exp.export r)) exps
        → Near q (export_all opts repo exps st).1 st.1
    unfolding export_all
    export_all-Near [] st h = (refl, refl)
    export_all-Near (exp ∷ exps) (c, w) h =
        Near-trans q (export_all opts repo exps (export_one opts repo exp (c, w))).1
          (export_one opts repo exp (c, w)).1 w
          (export_all-Near exps (export_one opts repo exp (c, w)) h.1) (export_one-Near exp c w h.0)

    archive_mirror-Near :
        (dir : FilePath) (c : Exported) (w : World)
        → Apart opts.archive_dir q
        → Near q (archive_mirror opts repo dir c w).1 w
    unfolding archive_mirror log_line
    archive_mirror-Near dir (exported, failed) w far =
        let rest = append_last (text ".tar.gz") (split_on b'/' repo.path) in
        let w₁ = log_line debug "archiving" repo.path w in
        let out = archive_path opts.archive_dir repo.path in
        let written : Near q (archive_repo dir out w₁).1 w₁ =
          subst (λ (p : FilePath). Near q (archive_repo dir p w₁).1 w₁)
            (sym (archive_path-parts opts.archive_dir repo.path named))
            (archive_repo-Near dir opts.archive_dir rest q
              (append_last-ne (text ".tar.gz") (split_on b'/' repo.path)) far w₁) in
        ground (arith, written.0, written.1)

    -- From the point where the mirror's directory is known; it lies below a directory apart from `q`.
    mirror_into-Near :
        (dir root rest : FilePath) (w : World)
        → dir ≡ root ++ rest
        → rest ≢ []
        → Apart root q
        → Apart opts.archive_dir q
        → Near q (mirror_into opts repo runner dir w).1 w
    unfolding mirror_into export_metadata log_line
    mirror_into-Near dir root rest w e ne far arch =
        let parent : at_or_above q (dir_of dir) ≡ false =
          rw (e, dir_of-append root rest ne) (Apart-below root (dir_of rest) q far).1 in
        let w₁ = (mkdir_all (dir_of dir) w).1 in
        let w₂ = log_line debug "mirroring" repo.path w₁ in
        let w₃ = (runner.sync (runner.remote repo) dir w₂).1 in
        let exported = export_metadata opts repo runner w₃ in
        let made = mkdir_all-Near q (dir_of dir) w parent in
        let synced = confined.syncs (runner.remote repo) dir root rest q w₂ e ne far in
        let exports = export_all-Near runner.exporters ((0, false), w₃) confined.exports in
        let archived = archive_mirror-Near dir exported.0 exported.1 arch in
        ground
          (arith, made.0, made.1, synced.0, synced.1, exports.0, exports.1, archived.0, archived.1)

    pub mirror_repo-Near :
        (w : World) → IsOutside opts q w → Near q (mirror_repo opts repo runner w).1 w
    unfolding mirror_repo mirror_scratch log_line
    mirror_repo-Near w out =
        let dir = mirror_path opts.dest repo.path in
        let below = mirror_path-parts opts.dest repo.path named in
        let here =
          mirror_into-Near dir opts.dest (mirror_parts repo.path) w below
            (append_last-ne (text ".git") (split_on b'/' repo.path)) dest_far out.archive_dir in
        let w₁ = (mkdir_temp w).1 in
        let made = mkdir_temp-Near q w out.scratch in
        elim (Bool-cases (repo.archived && wants opts.archive repo.archived)) [
          | inr kept ↦ rw kept here
          | inl done ↦ elim (Result-cases (mkdir_temp w).0) [
            | inr (e, p) ↦ rw (done, p) made
            | inl (scratch, p) ↦
                let far : Apart scratch q =
                  subst (λ (s : FilePath). Apart s q) (sym (mkdir_temp-path w scratch p))
                    out.scratch in
                let w₂ = (mirror_into opts repo runner (scratch ++ base dir ∷ []) w₁).1 in
                let inside =
                  mirror_into-Near (scratch ++ base dir ∷ []) scratch (base dir ∷ []) w₁ refl
                    (λ e. cc e) far out.archive_dir in
                rw (done, p)
                  (Near-trans q (remove_all scratch w₂).1 w₂ w (remove_all-Near q scratch w₂ far)
                    (Near-trans q w₂ w₁ w inside made))
          ]
        ]
