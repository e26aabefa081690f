-- ===== src/World/Reads.antt =====
-- The calls that only read, and their composition.
use backup_git_repos.Base.{◌≡◌, ◌∙◌, inl, inr}
use backup_git_repos.Error.Steps.{Result-cases}
use backup_git_repos.World.{World, Io, ◌>>=◌}

-- A call that leaves the disk as it was, whether it succeeds or fails.
pub record KeepsDisk {A : Type 0} (m : Io A) : Type 0 where
  pub fs : (w : World) → (m w).1.fs ≡ w.fs

pub bind-KeepsDisk :
    {A B : Type 0} (m : Io A) (f : A → Io B)
    → KeepsDisk m
    → ((a : A) → KeepsDisk (f a))
    → KeepsDisk (m >>= f)
bind-KeepsDisk m f first then_ = record {
  fs = λ w. elim (Result-cases (m w).0) [
    | inr (e, p) ↦ rw p (first.fs w)
    | inl (a, p) ↦ rw p ((then_ a).fs (m w).1 ∙ first.fs w)
  ];
}
