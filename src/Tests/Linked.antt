-- ===== src/Tests/Linked.antt =====
-- The export of GitLab's issues, at a project with two pages of issues and of notes.
use backup_git_repos.Base.{
  Text, text, ℕ, List, [], ◌∷◌, Option, none, some, Bool, true, false, list_beq, ◌==◌, list_eq,
  nat_eq, if◌then◌else◌, split_on, push_first,
}
use backup_git_repos.FilePath.{FilePath, join, walk_parts, enter, out_of, dir_of}
use backup_git_repos.Fs.{get, alter, find, set_entry, put_entry}
use backup_git_repos.Error.{Result, ok}
use backup_git_repos.World
use backup_git_repos.World.{World}
use backup_git_repos.Metadata.Write
use backup_git_repos.Forge.Http.{Web, Response, decode_response}
use backup_git_repos.Forge.Paging
use backup_git_repos.Forge.Export
use backup_git_repos.Forge.GitLab
use backup_git_repos.Forge.GitLab.Issues
use backup_git_repos.Forge.GitLab.Issues.{IssueItem, Note, Decoders, export_issues}
use backup_git_repos.Tests.{sample_world, repo_x}
use backup_git_repos.Tests.Forge.{paging_web, page_value}
use backup_git_repos.Tests.Export.{titles}

abbrev first_page : Text
first_page = 1 ∷ []

abbrev second_page : Text
second_page = 2 ∷ []

-- The first page names the second.
abbrev answer : Text → Response
answer page = record {
  status = 200;
  header = λ name. if page == first_page then second_page else [];
  body = page;
  broken = none;
}

abbrev two_pages : Web
two_pages = record (paging_web 200 []) {
  send = λ request w. (ok (answer (page_value request.url.query)), w);
}

abbrev issue : ℕ → Text → IssueItem
issue iid title = record {
  iid = iid;
  title = title;
  description = [];
  author = record { username = text "a" };
  state = text "opened";
  labels = [];
  created_at = [];
  updated_at = [];
  closed_at = none;
}

abbrev note : Bool → Note
note system = record {
  author = record { username = text "b" };
  body = text "yes";
  created_at = [];
  system = system;
}

abbrev decode_pages : {A : Type 0} → A → A → Text → Option (List A)
decode_pages a b page = if page == first_page then some (a ∷ []) else some (b ∷ [])

abbrev decoders : Decoders
decoders = record {
  issues = decode_pages (issue 1 (text "one")) (issue 2 (text "two"));
  notes = decode_pages (note false) (note true);
}

abbrev client : GitLab.Client
client = record { base_url = text "https://gitlab"; token = text "t" }

abbrev issue_pages : List (List IssueItem)
issue_pages = (issue 1 (text "one") ∷ []) ∷ (issue 2 (text "two") ∷ []) ∷ []

abbrev note_pages : ℕ → List (List Note)
note_pages iid = (note false ∷ []) ∷ (note true ∷ []) ∷ []

abbrev dir : FilePath
dir = text "b" ∷ text "f" ∷ []

issues_now : Result (Unit {0}) × World
unfolding export_issues Issues.fetch_issues_page Issues.fetch_notes_page Issues.fetch_notes
    Issues.notes_url Issues.export_issue Issues.to_issue Issues.common_state Issues.written_notes
    GitLab.project_sub_url GitLab.page_size GitLab.get_optional GitLab.accept_optional
    GitLab.get_request decode_response Export.each_linked Export.each Export.linked_end
    Paging.linked_pages Paging.next_then Write.write_issue World.write_file World.writable get find
    alter set_entry put_entry list_beq dir_of join walk_parts enter out_of split_on push_first
issues_now = export_issues two_pages titles decoders client 2 repo_x dir sample_world
