-- ===== src/Cli/Progress/Drawn.antt =====
-- internal/backup/cli_progress.go: what a whole run draws on the terminal.
use backup_git_repos.Base.{
  Text, text, ℕ, zero, suc, ◌+◌, ◌/◌, ◌%◌, ◌<◌, List, [], ◌∷◌, ◌++◌, ◌≡◌, refl, ◌∙◌, ap, true,
  false, ◌⊎◌, lacks, All, arith, length, append_assoc, append-nil, inl, inr,
}
use backup_git_repos.World.{World}
use backup_git_repos.Repo.{Repo}
use backup_git_repos.Run.Types.{Runner, Options}
use backup_git_repos.Run.Progress.{ticks}
use backup_git_repos.Run.Schedule.{RunState, Schedule, initial, IsDone}
use backup_git_repos.Run.Schedule.Totals.{Schedule-Accounts}
use backup_git_repos.Cli.Progress.{digits, decimal, frame, report, report_all}

abbrev pub OneLine : Text → Type 0
OneLine s = lacks 10 s ≡ true

lacks-append : (s t : Text) → OneLine s → OneLine t → OneLine (s ++ t)
unfolding lacks
lacks-append [] t h k = k
lacks-append (c ∷ s) t h k = ground (arith, lacks-append s t)

digits-OneLine : (fuel n : ℕ) (rest : Text) → OneLine rest → OneLine (digits fuel n rest)
unfolding digits lacks
digits-OneLine zero n rest h = h
digits-OneLine (suc fuel) n rest h =
    ground (arith, digits-OneLine fuel (n / 10) ((b'0' + n % 10) ∷ rest))

-- A drawing that begins at the start of the line, and stays on it.
abbrev pub IsRedrawn : Text → Text → Type 0
IsRedrawn label s = (shown : Text) × (s ≡ 13 ∷ (label ++ shown)) × OneLine s

abbrev pub joined : List Text → Text
joined [] = []
joined (s ∷ drawings) = s ++ joined drawings

-- One line that is redrawn for each repository and ends in the total, or nothing of an empty listing.
abbrev pub IsLine : Text → List Repo → Text → Type 0
IsLine label repos drawn =
    ((repos ≡ []) × (drawn ≡ []))
    ⊎ ((early : List Text) × (suc (length early) ≡ length repos)
        × All (IsRedrawn label) early
        × (drawn
            ≡ (joined early
                ++ 13
                  ∷ (label
                      ++ (text ": "
                          ++ (decimal (length repos) ++ (text "/" ++ decimal (length repos))))))
              ++ 10 ∷ []))

module _ (label : Text) (plain : OneLine label) where
  frame-OneLine : (tick : ℕ × ℕ) → OneLine (frame label tick)
  unfolding frame lacks decimal
  frame-OneLine (done, total) =
      let above = text "/" ++ decimal total in
      lacks-append label (text ": " ++ (decimal done ++ above)) plain (
        lacks-append (decimal done) above (digits-OneLine (suc done) done [] refl)
          (digits-OneLine (suc total) total [] refl))

  frame-IsRedrawn : (tick : ℕ × ℕ) → IsRedrawn label (frame label tick)
  unfolding frame
  frame-IsRedrawn tick =
      (text ": " ++ (decimal tick.0 ++ (text "/" ++ decimal tick.1)), refl, frame-OneLine tick)

  frames : List (ℕ × ℕ) → List Text
  frames [] = []
  frames (tick ∷ rest) = frame label tick ∷ frames rest

  frames-IsRedrawn : (shown : List (ℕ × ℕ)) → All (IsRedrawn label) (frames shown)
  unfolding frames
  frames-IsRedrawn [] = tt
  frames-IsRedrawn (tick ∷ rest) = (frame-IsRedrawn tick, frames-IsRedrawn rest)

  length-frames : (n d total : ℕ) → length (frames (ticks d n total)) ≡ n
  unfolding frames ticks
  length-frames zero d total = refl
  length-frames (suc n) d total = ap suc (length-frames n (d + 1) total)

  report_before :
      (done total : ℕ) (written : Text)
      → done < total
      → report label true (done, total) written ≡ written ++ frame label (done, total)
  unfolding report
  report_before done total written h = ground arith

  report_last :
      (done total : ℕ) (written : Text)
      → done ≡ total
      → report label true (done, total) written ≡ (written ++ frame label (total, total)) ++ 10 ∷ []
  unfolding report
  report_last done total written h = ground arith

  -- The last tick ends the line.
  report_all-ticks :
      (n d total : ℕ) (written : Text)
      → d + suc n ≡ total
      → report_all label true (ticks d (suc n) total) written
        ≡ ((written ++ joined (frames (ticks d n total))) ++ frame label (total, total)) ++ 10 ∷ []
  unfolding report_all ticks frames
  report_all-ticks zero d total written h =
      report_last (d + 1) total written (omega arith) ∙ rw append-nil refl
  report_all-ticks (suc n) d total written h =
      let first = frame label (d + 1, total) in
      ap (report_all label true (ticks (d + 1) (suc n) total))
        (report_before (d + 1) total written (omega arith))
      ∙ report_all-ticks n (d + 1) total (written ++ first) (omega arith)
      ∙ rw (append_assoc written first (joined (frames (ticks (d + 1) n total)))) refl

  ticks-IsLine :
      (repos : List Repo)
      → IsLine label repos (report_all label true (ticks 0 (length repos) (length repos)) [])
  unfolding report_all ticks frame
  ticks-IsLine [] = inl (refl, refl)
  ticks-IsLine (repo ∷ repos) =
      let n = length repos in
      inr (
        frames (ticks 0 n (suc n)),
        ap suc (length-frames n 0 (suc n)),
        frames-IsRedrawn (ticks 0 n (suc n)),
        report_all-ticks n 0 (suc n) [] (omega arith),
      )

report_all-quiet :
    (label : Text) (shown : List (ℕ × ℕ)) (written : Text)
    → report_all label false shown written ≡ written
unfolding report_all report
report_all-quiet label [] written = refl
report_all-quiet label (tick ∷ shown) written = report_all-quiet label shown written

module _ (runner : Runner) (opts : Options) (repos : List Repo) where
  -- In whatever order the workers of a run end, the progress that a terminal shows, under a label
  -- without a line break, is one line: it is drawn once for each repository, from a carriage return
  -- on, the last time with all of the repositories as done, and only then is it ended. Nothing is
  -- drawn where the listing is empty, or standard error is no terminal.
  pub report_all-IsLine :
      (label : Text) (w : World) {limit n : ℕ} {s : RunState} (plain : OneLine label)
      → Schedule runner opts limit (initial repos w) n s
      → IsDone s
      → (report_all label false s.counted.0.progress [] ≡ [])
        × IsLine label repos (report_all label true s.counted.0.progress [])
  report_all-IsLine label w {s = s} plain sched done = (
    report_all-quiet label s.counted.0.progress [],
    rw (Schedule-Accounts runner opts repos w 0 sched done).1 (ticks-IsLine label plain repos),
  )
