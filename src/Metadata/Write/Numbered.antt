-- ===== src/Metadata/Write/Numbered.antt =====
-- internal/backup/metadata.go: the files of issues and pull requests, each named by its number.
use backup_git_repos.Base.{
  Text, text, ℕ, [], ◌∷◌, ◌++◌, ◌≡◌, ◌≢◌, refl, sym, ◌∙◌, true, false, arith, nat_eq, list_eq,
  list_beq_iff, lacks, split_on-of_lacks, append_last, append-inj, Option-cases, inl, inr,
}
use backup_git_repos.FilePath.{FilePath}
use backup_git_repos.FilePath.Join.{join-suffix}
use backup_git_repos.Fs.{get}
use backup_git_repos.Fs.Update.{at_or_above, at_or_above-append, Apart}
use backup_git_repos.World.{World}
use backup_git_repos.World.Keeps.{get-write_file_of_Apart}
use backup_git_repos.Metadata.Write.{Issue, Encoders, present, numbered, write_issue}

-- What `strconv.Itoa` is relied on for.
pub record IsItoa (itoa : ℕ → Text) : Type 0 where
  pub digits : (n : ℕ) → lacks b'/' (itoa n) ≡ true
  pub distinct : (m n : ℕ) → itoa m ≡ itoa n → m ≡ n

module _ (enc : Encoders) (itoa : IsItoa enc.itoa) (dir : FilePath) where
  pub numbered-eq : (n : ℕ) → numbered enc dir n ≡ dir ++ (enc.itoa n ++ text ".json") ∷ []
  unfolding lacks append_last
  numbered-eq n =
      let alone = split_on-of_lacks b'/' (enc.itoa n) (itoa.digits n) in
      join-suffix dir (enc.itoa n) b'.' b'j' b's' (text "on") (rw alone tt) refl ∙ rw alone refl

  file_name-ne : (m n : ℕ) → m ≢ n → enc.itoa m ++ text ".json" ≢ enc.itoa n ++ text ".json"
  file_name-ne m n ne e =
      ne (itoa.distinct m n (append-inj (enc.itoa m) (enc.itoa n) (text ".json") e))

  leaf-false : (s t : Text) → s ≢ t → at_or_above (s ∷ []) (t ∷ []) ≡ false
  unfolding at_or_above
  leaf-false s t ne = ground (arith, list_beq_iff s t)

  -- Two numbers name two files.
  pub numbered-Apart : (m n : ℕ) → m ≢ n → Apart (numbered enc dir m) (numbered enc dir n)
  numbered-Apart m n ne =
      rw
        (
          numbered-eq m,
          numbered-eq n,
          at_or_above-append dir ((enc.itoa m ++ text ".json") ∷ [])
              ((enc.itoa n ++ text ".json") ∷ []),
          at_or_above-append dir ((enc.itoa n ++ text ".json") ∷ [])
              ((enc.itoa m ++ text ".json") ∷ []),
        )
        (leaf-false _ _ (file_name-ne m n ne), leaf-false _ _ (λ e. file_name-ne m n ne (sym e)))

  -- Writing an issue, with or without success, leaves the file of every other number.
  pub write_issue-keeps :
      (n : ℕ) (issue : Issue) (w : World)
      → issue.number ≢ n
      → get (numbered enc dir n) (write_issue enc dir issue w).1.fs ≡ get (numbered enc dir n) w.fs
  unfolding write_issue
  write_issue-keeps n issue w ne =
      elim (Option-cases (enc.issue (record issue { comments = present issue.comments }))) [
        | inl p ↦ rw p refl
        | inr (bytes, p) ↦ rw p (
            get-write_file_of_Apart (numbered enc dir issue.number) (numbered enc dir n) bytes w
              (numbered-Apart issue.number n ne))
      ]
