-- ===== src/Forge/GitLab/Issues/Complete.antt =====
-- internal/gitlab/issue.go: what an export of issues leaves on disk.
use backup_git_repos.Base.{not, Text, text, ℕ, List, some, ◌≡◌, ◌≢◌}
use backup_git_repos.FilePath.{FilePath}
use backup_git_repos.Fs.{file, get}
use backup_git_repos.World.{World}
use backup_git_repos.Repo.{Repo}
use backup_git_repos.Metadata.Write.{Encoders, numbered}
use backup_git_repos.Forge.Http.{Web}
use backup_git_repos.Forge.Paging.Linked.{concat}
use backup_git_repos.Forge.Paging.Complete.{selected}
use backup_git_repos.Forge.GitLab.{Client, project_sub_url}
use backup_git_repos.Forge.GitLab.Linked.{LinkedPages}
use backup_git_repos.Forge.GitLab.Issues.{IssueItem, Note, Decoders, to_issue, notes_url}

abbrev pub Differ : IssueItem → IssueItem → Type 0
Differ a b = b.iid ≢ a.iid

-- The notes that a person wrote.
abbrev pub by_people : List Note → List Note
by_people = selected (λ (n : Note). not n.system)

module _ (web : Web) (enc : Encoders) (decoders : Decoders) (c : Client) (repo : Repo) where
  -- GitLab, with these pages of issues, and of notes on each issue.
  pub record Answers (listing : List (List IssueItem)) (notes : ℕ → List (List Note)) : Type 0 where
    pub issues :
        LinkedPages web c decoders.issues
          (project_sub_url web c repo.path (text "issues"))
          1
          listing
    pub notes_of :
        (iid : ℕ) → LinkedPages web c decoders.notes (notes_url web c repo.path iid) 1 (notes iid)

  -- What an issue comes to on disk: the file of its number, with every note that a person wrote.
  abbrev pub IsWritten : (ℕ → List (List Note)) → FilePath → IssueItem → World → Type 0
  IsWritten notes dir it w =
      (bytes : Text) × (enc.issue (to_issue it (by_people (concat (notes it.iid)))) ≡ some bytes)
      × (get (numbered enc dir it.iid) w.fs ≡ some (file bytes))
