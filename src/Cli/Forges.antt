-- ===== src/Cli/Forges.antt =====
-- internal/backup/cli.go: the loop of `runBackup` over the configured forges.
use backup_git_repos.Base.{
  Bool, true, false, List, [], ◌∷◌, ◌++◌, ◌≡◌, refl, ap, sym, ◌∙◌, subst, inl, inr, Bool-cases,
}
use backup_git_repos.Error.{Err, Result, ok, err}
use backup_git_repos.Error.Steps.{Result-cases}
use backup_git_repos.World.{World, settle}
use backup_git_repos.Config.{ForgeConfig}
use backup_git_repos.Run.Types.{Runner}
use backup_git_repos.Cli.{is_selected, run_forges}
use backup_git_repos.Cli.Paths.{CliFlags}
use backup_git_repos.Cli.Forge.{Selection, run_forge}

module _ (new_runner : ForgeConfig → Result Runner) (sel : Selection) (flags : CliFlags)
    (list_only : Bool) where
  run_next :
      (fc : ForgeConfig) (fcs : List ForgeConfig) (w : World)
      → is_selected flags.forges fc.name ≡ true
      → run_forges new_runner sel flags list_only (fc ∷ fcs) w
        ≡ settle
            (run_forge new_runner sel flags list_only fc w).0
            (λ e. (err e, (run_forge new_runner sel flags list_only fc w).1))
            (λ _.
              run_forges new_runner sel flags list_only fcs
                (run_forge new_runner sel flags list_only fc w).1)
  unfolding run_forges
  run_next fc fcs w h = rw h refl

  run_skipped :
      (fc : ForgeConfig) (fcs : List ForgeConfig) (w : World)
      → is_selected flags.forges fc.name ≡ false
      → run_forges new_runner sel flags list_only (fc ∷ fcs) w
        ≡ run_forges new_runner sel flags list_only fcs w
  unfolding run_forges
  run_skipped fc fcs w h = rw h refl

  -- The first selected forge that fails ends the command with its error: the world is the one that
  -- it left, and none of the forges behind it is begun.
  pub run_forges_stop :
      (before after : List ForgeConfig) (fc : ForgeConfig) (w w₁ w₂ : World) (e : Err)
      → run_forges new_runner sel flags list_only before w ≡ (ok tt, w₁)
      → is_selected flags.forges fc.name ≡ true
      → run_forge new_runner sel flags list_only fc w₁ ≡ (err e, w₂)
      → run_forges new_runner sel flags list_only (before ++ fc ∷ after) w ≡ (err e, w₂)
  unfolding run_forges
  run_forges_stop [] after fc w w₁ w₂ e h k q =
      let same : w ≡ w₁ = ap (λ (p : Result (Unit {0}) × World). p.1) h in
      let here : run_forge new_runner sel flags list_only fc w ≡ (err e, w₂) =
        subst (λ (v : World). run_forge new_runner sel flags list_only fc v ≡ (err e, w₂))
          (sym same) q in
      run_next fc after w k ∙ rw here refl
  run_forges_stop (b ∷ before) after fc w w₁ w₂ e h k q =
      let v = (run_forge new_runner sel flags list_only b w).1 in
      elim (Bool-cases (is_selected flags.forges b.name)) [
        | inr out ↦
            run_skipped b (before ++ fc ∷ after) w out
            ∙ run_forges_stop before after fc w w₁ w₂ e (sym (run_skipped b before w out) ∙ h) k q
        | inl in_ ↦
            let first = sym (run_next b before w in_) ∙ h in
            elim (Result-cases (run_forge new_runner sel flags list_only b w).0) [
              | inr (x, p) ↦ cc (rw p at first)
              | inl (_, p) ↦
                  run_next b (before ++ fc ∷ after) w in_
                  ∙ rw p (run_forges_stop before after fc v w₁ w₂ e (rw p at first) k q)
            ]
      ]
