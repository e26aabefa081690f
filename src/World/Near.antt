-- ===== src/World/Near.antt =====
-- What the calls of package os leave, seen from one path: what stands there, and the environment.
use backup_git_repos.Base.{
  Text, [], ◌∷◌, ◌++◌, ◌≡◌, ◌≢◌, refl, ◌∙◌, ap, false, none, some, arith, append_last, nat_eq,
  list_eq, list_beq_iff, Option-cases, inl, inr,
}
use backup_git_repos.FilePath.{FilePath, with_suffix, dir_of}
use backup_git_repos.Fs.{dir, end, get, alter}
use backup_git_repos.Fs.Update.{at_or_above, Apart, get-alter_of_Apart}
use backup_git_repos.Error.{Result}
use backup_git_repos.Error.Steps.{Result-cases}
use backup_git_repos.World.{
  World, Io, wrapping, ◌>>=◌, mkdir_all, mkdir_temp, remove_all, remove, rename, write_file,
}
use backup_git_repos.World.Keeps.{
  get-mkdir_all, get-remove_all, get-remove, get-write_file_of_Apart, write_file-env,
}

-- Two worlds with the same environment, in which the same stands at a path.
abbrev pub Near : FilePath → World → World → Type 0
Near q v w = (get q v.fs ≡ get q w.fs) × (v.env ≡ w.env)

pub Near-trans : (q : FilePath) (u v w : World) → Near q u v → Near q v w → Near q u w
Near-trans q u v w h k = (h.0 ∙ k.0, h.1 ∙ k.1)

module _ (q : FilePath) where
  pub mkdir_all-Near :
      (p : FilePath) (w : World) → at_or_above q p ≡ false → Near q (mkdir_all p w).1 w
  unfolding mkdir_all
  mkdir_all-Near p w h = (get-mkdir_all p q w h, ground arith)

  pub remove_all-Near : (p : FilePath) (w : World) → Apart p q → Near q (remove_all p w).1 w
  unfolding remove_all
  remove_all-Near p w h = (get-remove_all p q w h, ground arith)

  pub remove-Near : (p : FilePath) (w : World) → Apart p q → Near q (remove p w).1 w
  unfolding remove
  remove-Near p w h = (get-remove p q w h, ground arith)

  pub write_file-Near :
      (p : FilePath) (content : Text) (w : World) → Apart p q → Near q (write_file p content w).1 w
  write_file-Near p content w h =
      (get-write_file_of_Apart p q content w h, write_file-env p content w)

  pub rename-Near :
      (old new : FilePath) (w : World) → Apart old q → Apart new q → Near q (rename old new w).1 w
  unfolding rename
  rename-Near old new w h k = elim (Option-cases (get old w.fs)) [
    | inl e ↦ ground arith
    | inr (n, e) ↦
        let emptied = alter old (λ _. none) w.fs in
        ground (
          arith,
          get-alter_of_Apart old q (λ _. none) w.fs h.0 h.1,
          get-alter_of_Apart new q (λ _. some n) emptied k.0 k.1,
        )
  ]

  pub mkdir_temp-Near : (w : World) → Apart w.env.temp_name q → Near q (mkdir_temp w).1 w
  unfolding mkdir_temp
  mkdir_temp-Near w h = elim (Option-cases (get w.env.temp_name w.fs)) [
    | inr (n, e) ↦ ground (arith, e)
    | inl e ↦
        ground (arith, e, get-alter_of_Apart w.env.temp_name q (λ _. some (dir end)) w.fs h.0 h.1)
  ]

-- What lies below a directory that stands apart stands apart.
pub Apart-below : (root rest q : FilePath) → Apart root q → Apart (root ++ rest) q
unfolding at_or_above
Apart-below [] rest q h = cc h.0
Apart-below (a ∷ root) rest [] h = cc h.1
Apart-below (a ∷ root) rest (b ∷ q) h =
    ground (arith, list_beq_iff a b, list_beq_iff b a, Apart-below root rest q)

pub dir_of-append : (root rest : FilePath) → rest ≢ [] → dir_of (root ++ rest) ≡ root ++ dir_of rest
unfolding dir_of
dir_of-append [] rest h = refl
dir_of-append (a ∷ []) [] h = absurd (h refl)
dir_of-append (a ∷ []) (b ∷ rest) h = refl
dir_of-append (a ∷ b ∷ root) rest h = ap (λ (p : FilePath). a ∷ p) (dir_of-append (b ∷ root) rest h)

pub with_suffix-append :
    (root rest : FilePath) (suffix : Text)
    → rest ≢ []
    → with_suffix (root ++ rest) suffix ≡ root ++ with_suffix rest suffix
unfolding with_suffix append_last
with_suffix-append [] rest suffix h = refl
with_suffix-append (a ∷ []) [] suffix h = absurd (h refl)
with_suffix-append (a ∷ []) (b ∷ rest) suffix h = refl
with_suffix-append (a ∷ b ∷ root) rest suffix h =
    ap (λ (p : FilePath). a ∷ p) (with_suffix-append (b ∷ root) rest suffix h)

-- A call that changes neither the environment nor what stands at a path.
pub record Stays {A : Type 0} (q : FilePath) (m : Io A) : Type 0 where
  pub at : (w : World) → Near q (m w).1 w

pub bind-Stays :
    {q : FilePath} {A B : Type 0} (m : Io A) (f : A → Io B)
    → Stays q m
    → ((a : A) → Stays q (f a))
    → Stays q (m >>= f)
bind-Stays {q} m f first then_ = record {
  at = λ w. elim (Result-cases (m w).0) [
    | inr (e, p) ↦ rw p (first.at w)
    | inl (a, p) ↦ rw p (Near-trans q (f a (m w).1).1 (m w).1 w ((then_ a).at (m w).1) (first.at w))
  ];
}

pub wrapping-Stays :
    {q : FilePath} {A : Type 0} (context : Text) (m : Io A)
    → Stays q m
    → Stays q (wrapping context m)
wrapping-Stays context m h = record { at = h.at }

-- A step that only looks.
pub looking-Stays : {q : FilePath} {A : Type 0} (f : World → Result A) → Stays q (λ w. (f w, w))
looking-Stays f = record { at = λ w. (refl, refl) }

-- A call that stays away from every path leaves the disk as it was.
pub Stays-fs : {A : Type 0} (m : Io A) (w : World) → Stays [] m → (m w).1.fs ≡ w.fs
unfolding get
Stays-fs m w h = (h.at w).0
