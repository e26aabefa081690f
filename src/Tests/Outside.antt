-- ===== src/Tests/Outside.antt =====
-- The theorem on what a run over GitHub leaves alone, at sample data.
use backup_git_repos.Base.{
  text, List, [], ◌∷◌, ◌≡◌, refl, true, false, some, list_beq, split_on, push_first, sort,
  insert_text, text_leb, contains, cut_suffix, join_with, nat_eq, list_eq,
}
use backup_git_repos.FilePath.{FilePath, is_name}
use backup_git_repos.Fs.{get, find}
use backup_git_repos.Fs.Update.{at_or_above}
use backup_git_repos.Error.{ok, is_not_exist}
use backup_git_repos.World
use backup_git_repos.World.{World}
use backup_git_repos.Repo.{Repo}
use backup_git_repos.Run.Types.{Runner}
use backup_git_repos.Run.Scan
use backup_git_repos.Run.Scan.{stale_mirrors, on_disk_paths, is_mirror_dir, is_archive_file}
use backup_git_repos.Run.Loop.{list_repos, full_listing, run}
use backup_git_repos.Run.Outside.{IsOutside}
use backup_git_repos.Run.Outside.Whole.{AllNamed}
use backup_git_repos.Forge.GitHub
use backup_git_repos.Forge.Paging.{pages, page_then, collect, consider, last_page}
use backup_git_repos.Forge.Http.{decode_response}
use backup_git_repos.Main.{Adapters, github_runner, new_runner}
use backup_git_repos.Main.Confined.{KeepsOut, new_runner_outside}
use backup_git_repos.Tests.{sample_world, sample_options}
use backup_git_repos.Tests.Config.{forge_done}
use backup_git_repos.Tests.Export.{titles, strokes-IsItoa}
use backup_git_repos.Tests.Forge.{github_items, github_client}
use backup_git_repos.Tests.Main.{sample_adapters}

abbrev one_page : Adapters
one_page = record sample_adapters { github_items = λ body. some github_items; encoders = titles }

one_page-KeepsOut : KeepsOut one_page
one_page-KeepsOut = record {
  sends = λ q req. record { at = λ w. (refl, refl) };
  works = record {
    clones = λ vars url dir q w far. (refl, refl);
    updates = λ vars dir q w far. (refl, refl);
    lists = λ vars dir q w far. (refl, refl);
    greps = λ vars dir refs q w far. (refl, refl);
    fetches = λ vars dir q w far. (refl, refl);
  };
  itoa = strokes-IsItoa;
}

abbrev one_runner : Runner
one_runner = github_runner one_page github_client

runner_built : new_runner one_page forge_done ≡ ok one_runner
unfolding new_runner GitHub.new_client list_beq
runner_built = refl

abbrev listed_repos : List Repo
listed_repos =
    record { path = text "o/a"; archived = false; empty = false }
    ∷ record { path = text "o/b"; archived = true; empty = true }
    ∷ []

repos_listed :
    list_repos one_runner sample_options.state sample_world
    ≡ (ok (listed_repos, listed_repos), sample_world)
unfolding list_repos full_listing github_runner GitHub.list_repos GitHub.checked_page
    GitHub.fetch_repos_page GitHub.filter_repo GitHub.wants_state GitHub.to_repo
    GitHub.check_repo_scope GitHub.page_size pages page_then collect consider last_page
    decode_response list_beq
repos_listed = refl

stale_found :
    stale_mirrors sample_options.dest sample_options.archive_dir listed_repos sample_world
    ≡ ok (text "gone" ∷ text "x" ∷ [])
unfolding stale_mirrors on_disk_paths is_mirror_dir is_archive_file Scan.keep_stale Scan.walk_root
    Scan.on_disk Scan.matches Scan.has_suffix Scan.trim_suffix World.stat World.missing
    World.blocked is_not_exist get find cut_suffix join_with sort insert_text text_leb contains
    list_beq
stale_found = refl

listed-AllNamed : AllNamed listed_repos
unfolding split_on push_first is_name list_beq
listed-AllNamed = ((refl, tt), ((refl, tt), tt))

abbrev home_config : FilePath
home_config = text "home" ∷ text ".config" ∷ []

config-IsOutside : IsOutside sample_options home_config sample_world
unfolding at_or_above list_beq
config-IsOutside = record {
  dest = (refl, refl);
  archive_dir = (refl, refl);
  scratch = (refl, refl);
}

new_runner_outside_example :
    get home_config (run one_runner sample_options sample_world).1.fs
    ≡ get home_config sample_world.fs
unfolding split_on push_first
new_runner_outside_example =
    new_runner_outside one_page forge_done one_runner sample_options home_config sample_world
      sample_world listed_repos listed_repos (text "gone" ∷ text "x" ∷ []) one_page-KeepsOut
      runner_built repos_listed stale_found listed-AllNamed (tt, (tt, tt)) config-IsOutside
