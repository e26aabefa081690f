-- ===== src/World/Keeps.antt =====
-- What the calls of package os leave as it was.
use backup_git_repos.Base.{
  Text, [], ◌∷◌, ◌++◌, ◌≡◌, ◌≢◌, refl, sym, ap, true, false, none, some, Option, subst, arith,
  nat_eq, list_eq, list_beq_iff, append_last, Option-cases, inl, inr,
}
use backup_git_repos.FilePath.{FilePath, with_suffix, dir_of, base}
use backup_git_repos.Fs.{Node, file, dir, link, Entries, Fs, get, alter, make_dirs}
use backup_git_repos.Fs.Update.{
  at_or_above, Apart, get-alter_of_Apart, get-alter_child, get-make_dirs, get-alter_parent,
}
use backup_git_repos.Error.{Err, Result, ok, err}
use backup_git_repos.World.{
  World, wrap_result, has_dir, mkdir_all, remove_all, remove, rename, write_file, writable,
}

pub get-remove_all :
    (p q : FilePath) (w : World) → Apart p q → get q (remove_all p w).1.fs ≡ get q w.fs
unfolding remove_all
get-remove_all p q w h = ground (arith, get-alter_of_Apart p q (λ _. none) w.fs)

pub get-remove : (p q : FilePath) (w : World) → Apart p q → get q (remove p w).1.fs ≡ get q w.fs
unfolding remove
get-remove p q w h = ground (arith, get-alter_of_Apart p q (λ _. none) w.fs)

-- A rename that fails changes nothing.
pub rename_failed :
    (old new : FilePath) (w : World) (e : Err)
    → (rename old new w).0 ≡ err e
    → (rename old new w).1 ≡ w
unfolding rename
rename_failed old new w e h = ground arith

tail_of : Text → Text
tail_of [] = []
tail_of (x ∷ s) = s

longer-ne : (s t : Text) → t ≢ [] → s ++ t ≢ s
unfolding tail_of
longer-ne [] t h e = h e
longer-ne (x ∷ s) t h e = longer-ne s t h (ap tail_of e)

-- A path stands apart from itself with a suffix.
pub with_suffix-Apart :
    (path : FilePath) (suffix : Text)
    → path ≢ []
    → suffix ≢ []
    → Apart (with_suffix path suffix) path
unfolding with_suffix append_last at_or_above
with_suffix-Apart [] suffix h k = absurd (h refl)
with_suffix-Apart (s ∷ []) suffix h k =
    ground (arith, list_beq_iff (s ++ suffix) s, list_beq_iff s (s ++ suffix), longer-ne s suffix k)
with_suffix-Apart (s ∷ t ∷ path) suffix h k =
    ground (arith, list_beq_iff s s, with_suffix-Apart (t ∷ path) suffix (λ e. cc e) k)

dir-base : (path : FilePath) → path ≢ [] → dir_of path ++ base path ∷ [] ≡ path
unfolding dir_of base
dir-base [] h = absurd (h refl)
dir-base (name ∷ []) h = refl
dir-base (name ∷ next ∷ rest) h =
    ap (λ (p : FilePath). name ∷ p) (dir-base (next ∷ rest) (λ e. cc e))

put-child :
    (path : FilePath) (n : Node) (root : Fs) {es : Entries}
    → path ≢ []
    → get (dir_of path) root ≡ some (dir es)
    → get path (alter path (λ _. some n) root) ≡ some n
put-child path n root h k =
    subst (λ (p : FilePath). get p (alter p (λ _. some n) root) ≡ some n) (dir-base path h)
      (get-alter_child (dir_of path) (base path) (λ _. some n) root k)

writable-dir :
    (path : FilePath) (root : Fs) (o : Option Node)
    → get (dir_of path) root ≡ o
    → writable path root ≡ true
    → (es : Entries) × (get (dir_of path) root ≡ some (dir es))
unfolding writable
writable-dir path root none q h = cc (rw (q, writable) at h)
writable-dir path root (some (file s)) q h = cc (rw (q, writable) at h)
writable-dir path root (some (link s)) q h = cc (rw (q, writable) at h)
writable-dir path root (some (dir es)) q h = (es, q)

writable_root : (root : Fs) → writable [] root ≡ false
unfolding writable get dir_of
writable_root none = refl
writable_root (some (file s)) = refl
writable_root (some (link s)) = refl
writable_root (some (dir es)) = refl

-- A file that is written holds what was written.
pub get-write_file :
    (path : FilePath) (content : Text) (w : World)
    → (write_file path content w).0 ≡ ok tt
    → get path (write_file path content w).1.fs ≡ some (file content)
unfolding write_file
get-write_file [] content w h = ground (arith, writable_root w.fs)
get-write_file (name ∷ path) content w h =
    let p = name ∷ path in
    let (es, there) = writable-dir p w.fs (get (dir_of p) w.fs) refl (ground arith) in
    ground (arith, put-child p (file content) w.fs {es = es} (λ e. cc e) there)

-- Any path apart from the one that is written keeps what it holds.
pub get-write_file_of_Apart :
    (p q : FilePath) (content : Text) (w : World)
    → Apart p q
    → get q (write_file p content w).1.fs ≡ get q w.fs
unfolding write_file
get-write_file_of_Apart p q content w h =
    ground (arith, get-alter_of_Apart p q (λ _. some (file content)) w.fs)

pub get-mkdir_all :
    (p q : FilePath) (w : World) → at_or_above q p ≡ false → get q (mkdir_all p w).1.fs ≡ get q w.fs
unfolding mkdir_all
get-mkdir_all p q w h = elim (Option-cases (make_dirs p w.fs)) [
  | inl e ↦ ground arith
  | inr (fs', e) ↦ ground (arith, get-make_dirs p q w.fs fs' e h)
]

-- A context is put around errors only.
pub wrap_result-eq-ok {ℓ} :
    {A : Type ℓ} (context : Text) (r : Result A) (a : A) → wrap_result context r ≡ ok a → r ≡ ok a
wrap_result-eq-ok context (ok b) a h = h
wrap_result-eq-ok context (err e) a h = cc h

with_suffix-eq :
    (path : FilePath) (suffix : Text)
    → path ≢ []
    → with_suffix path suffix ≡ dir_of path ++ (base path ++ suffix) ∷ []
unfolding with_suffix append_last dir_of base
with_suffix-eq [] suffix h = absurd (h refl)
with_suffix-eq (name ∷ []) suffix h = refl
with_suffix-eq (name ∷ next ∷ rest) suffix h =
    ap (λ (p : FilePath). name ∷ p) (with_suffix-eq (next ∷ rest) suffix (λ e. cc e))

has_dir-dir :
    (path : FilePath) (root : Fs) (o : Option Node)
    → get (dir_of path) root ≡ o
    → has_dir path root ≡ true
    → (es : Entries) × (get (dir_of path) root ≡ some (dir es))
unfolding has_dir
has_dir-dir path root none q h = cc (rw (q, has_dir) at h)
has_dir-dir path root (some (file s)) q h = cc (rw (q, has_dir) at h)
has_dir-dir path root (some (link s)) q h = cc (rw (q, has_dir) at h)
has_dir-dir path root (some (dir es)) q h = (es, q)

renamed_has_dir :
    (old new : FilePath) (n : Node) (w : World)
    → get old w.fs ≡ some n
    → (rename old new w).0 ≡ ok tt
    → has_dir new w.fs ≡ true
unfolding rename
renamed_has_dir old new n w there h = ground arith

-- What a file beside a path holds is what the path holds, once the one is renamed to the other.
pub get-rename_beside :
    (path : FilePath) (suffix : Text) (n : Node) (w : World)
    → path ≢ []
    → get (with_suffix path suffix) w.fs ≡ some n
    → (rename (with_suffix path suffix) path w).0 ≡ ok tt
    → get path (rename (with_suffix path suffix) path w).1.fs ≡ some n
unfolding rename
get-rename_beside path suffix n w ne there h =
    let old = with_suffix path suffix in
    let (es, parent) =
      has_dir-dir path w.fs (get (dir_of path) w.fs) refl (renamed_has_dir old path n w there h) in
    let left = get-alter_parent (dir_of path) (base path ++ suffix) (λ _. none) w.fs parent in
    let emptied = alter old (λ _. none) w.fs in
    let beside : get (dir_of path) emptied ≡ some (dir left.0) =
      subst (λ (p : FilePath). get (dir_of path) (alter p (λ _. none) w.fs) ≡ some (dir left.0))
        (sym (with_suffix-eq path suffix ne)) left.1 in
    rw there (
      ground (
        arith,
        renamed_has_dir old path n w there h,
        put-child path n emptied {es = left.0} ne beside,
      ))

pub write_file-env :
    (path : FilePath) (content : Text) (w : World) → (write_file path content w).1.env ≡ w.env
unfolding write_file
write_file-env path content w = ground arith
