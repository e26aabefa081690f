-- ===== src/Repo.antt =====
-- internal/backup/repo.go, and the selections of internal/backup/run.go and cli.go: repositories,
-- the states that a listing is filtered by, and what is archived.
pub mod Flags
use backup_git_repos.Base.{Text, text, [], Bool, true, false, not, ◌==◌, ◌||◌, nat_eq, list_eq}
use backup_git_repos.Base.{list_beq, if◌then◌else◌, ◌≡◌, ◌↔◌, arith, Comparable}
use backup_git_repos.Error.{Result, ok, err, bad_state, bad_archive}

pub record Repo : Type 0 where
  pub path : Text
  pub archived : Bool
  pub empty : Bool

pub data State : Type 0 where
  state_all state_active state_archived : State

-- `State.String`
unfoldable pub state_text : State → Text
state_text state_all = text "all"
state_text state_active = text "active"
state_text state_archived = text "archived"

abbrev pub state_beq : State → State → Bool
state_beq state_all state_all = true
state_beq state_active state_active = true
state_beq state_archived state_archived = true
state_beq _ _ = false

pub state_beq_iff : (a b : State) → (state_beq a b ≡ true) ↔ (a ≡ b)
state_beq_iff a b = ground arith

instance abbrev pub state_eq : Comparable State
state_eq = record { equal = state_beq; equal_iff = state_beq_iff }

pub data ArchiveSelection : Type 0 where
  archive_none archive_all archive_active archive_archived : ArchiveSelection

-- `ArchiveSelection.wants`
unfoldable pub wants : ArchiveSelection → Bool → Bool
wants archive_all archived = true
wants archive_active archived = not archived
wants archive_archived archived = archived
wants archive_none archived = false

unfoldable pub parse_state : Text → Result State
unfolding list_beq
parse_state s =
    if s == [] || s == text "all"
    then ok state_all
    else if s == text "active"
    then ok state_active
    else if s == text "archived"
    then ok state_archived
    else err (bad_state s)

unfoldable pub parse_archive : Text → Result ArchiveSelection
unfolding list_beq
parse_archive s =
    if s == [] || s == text "none"
    then ok archive_none
    else if s == text "all"
    then ok archive_all
    else if s == text "active"
    then ok archive_active
    else if s == text "archived"
    then ok archive_archived
    else err (bad_archive s)
