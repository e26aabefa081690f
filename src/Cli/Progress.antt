-- ===== src/Cli/Progress.antt =====
-- internal/backup/cli_progress.go: the line that shows how far a run is, drawn on standard error.
pub mod Drawn
use backup_git_repos.Base.{
  Text, text, ℕ, zero, suc, ◌+◌, ◌/◌, ◌%◌, List, [], ◌∷◌, ◌++◌, Bool, false, ltb, leb,
  if◌then◌else◌,
}

-- What the command writes its errors to: an `*os.File` by its descriptor, or any other writer.
pub data Writer : Type 0 where
  os_file : ℕ → Writer
  other : Writer

-- `isTerminalWriter`, over `term.IsTerminal`.
unfoldable pub is_terminal_writer : (ℕ → Bool) → Writer → Bool
is_terminal_writer is_terminal (os_file fd) = is_terminal fd
is_terminal_writer is_terminal other = false

-- The verb %d of `fmt`.
unfoldable pub digits : ℕ → ℕ → Text → Text
digits zero n rest = rest
digits (suc fuel) n rest =
    let more = digits fuel (n / 10) ((b'0' + n % 10) ∷ rest) in
    if ltb n 10 then (b'0' + n) ∷ rest else more

unfoldable pub decimal : ℕ → Text
decimal n = digits (suc n) n []

-- One drawing of the line: "\r%s: %d/%d".
unfoldable pub frame : Text → ℕ × ℕ → Text
frame label (done, total) =
    13 ∷ (label ++ (text ": " ++ (decimal done ++ (text "/" ++ decimal total))))

-- The callback that `newProgressReporter` returns, on what has been written so far.
unfoldable pub report : Text → Bool → ℕ × ℕ → Text → Text
report label tty (done, total) written =
    let drawn = written ++ frame label (done, total) in
    if tty then (if leb total done then drawn ++ 10 ∷ [] else drawn) else written

-- The calls of the callback in turn.
unfoldable pub report_all : Text → Bool → List (ℕ × ℕ) → Text → Text
report_all label tty [] written = written
report_all label tty (tick ∷ ticks) written =
    report_all label tty ticks (report label tty tick written)
