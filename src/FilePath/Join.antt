-- ===== src/FilePath/Join.antt =====
-- `filepath.Join` of a clean text appends its parts.
use mathlib.Core.List.{reverse-cons, reverse-reverse, reverse-append}
use backup_git_repos.Base.{Text, List, [], ◌∷◌, ◌++◌, reverse, true, ◌≡◌, refl, ap, ◌∙◌, arith, All}
use backup_git_repos.Base.{
  ℕ, sym, list_beq, lacks, append_last, split_on-append, split_on, append_assoc,
}
use backup_git_repos.FilePath.{FilePath, join, walk_parts, enter, is_name}

abbrev pub Names : List Text → Type 0
Names = All (λ s. is_name s ≡ true)

enter-name : (dir : List Text) (s : Text) → is_name s ≡ true → enter dir s ≡ s ∷ dir
unfolding enter is_name
enter-name dir s h = ground arith

walk_parts-Names :
    (dir parts : List Text) → Names parts → walk_parts dir parts ≡ reverse parts ++ dir
unfolding walk_parts
walk_parts-Names dir [] h = refl
walk_parts-Names dir (s ∷ parts) h =
    rw (enter-name dir s h.0, walk_parts-Names (s ∷ dir) parts h.1, reverse-cons)
      (sym (append_assoc (reverse parts) (s ∷ []) dir))

-- A text whose parts are all names lies below the directory that it is joined to.
pub join-Names :
    (dir : FilePath) (s : Text) → Names (split_on b'/' s) → join dir s ≡ dir ++ split_on b'/' s
unfolding join
join-Names dir s h =
    ap reverse (walk_parts-Names (reverse dir) (split_on b'/' s) h)
    ∙ reverse-append (reverse (split_on b'/' s)) (reverse dir)
    ∙ cc (reverse-reverse dir, reverse-reverse (split_on b'/' s))

-- A text of three bytes or more is neither empty, `.` nor `..`.
is_name_of_length : (a b c : ℕ) (s : Text) → is_name (a ∷ b ∷ c ∷ s) ≡ true
unfolding is_name list_beq
is_name_of_length a b c s = ground arith

-- All names of a path but the last are names.
abbrev pub ParentNames : List Text → Type 0
ParentNames [] = Unit
ParentNames (s ∷ []) = Unit
ParentNames (s ∷ t ∷ parts) = (is_name s ≡ true) × ParentNames (t ∷ parts)

is_name-append : (s : Text) (a b c : ℕ) (suffix : Text) → is_name (s ++ (a ∷ b ∷ c ∷ suffix)) ≡ true
is_name-append [] a b c suffix = is_name_of_length a b c suffix
is_name-append (x ∷ []) a b c suffix = is_name_of_length x a b (c ∷ suffix)
is_name-append (x ∷ y ∷ []) a b c suffix = is_name_of_length x y a (b ∷ c ∷ suffix)
is_name-append (x ∷ y ∷ z ∷ s) a b c suffix = is_name_of_length x y z (s ++ (a ∷ b ∷ c ∷ suffix))

append_last-Names :
    (parts : List Text) (a b c : ℕ) (suffix : Text)
    → ParentNames parts
    → Names (append_last (a ∷ b ∷ c ∷ suffix) parts)
unfolding append_last
append_last-Names [] a b c suffix h = (is_name_of_length a b c suffix, tt)
append_last-Names (s ∷ []) a b c suffix h = (is_name-append s a b c suffix, tt)
append_last-Names (s ∷ t ∷ parts) a b c suffix h =
    (h.0, append_last-Names (t ∷ parts) a b c suffix h.1)

-- A path with a suffix of three bytes or more, joined to a directory.
pub join-suffix :
    (dir : FilePath) (path : Text) (a b c : ℕ) (suffix : Text)
    → ParentNames (split_on b'/' path)
    → lacks b'/' (a ∷ b ∷ c ∷ suffix) ≡ true
    → join dir (path ++ (a ∷ b ∷ c ∷ suffix))
      ≡ dir ++ append_last (a ∷ b ∷ c ∷ suffix) (split_on b'/' path)
join-suffix dir path a b c suffix h k =
    let parts : split_on b'/' (path ++ (a ∷ b ∷ c ∷ suffix))
        ≡ append_last (a ∷ b ∷ c ∷ suffix) (split_on b'/' path) =
      split_on-append b'/' path (a ∷ b ∷ c ∷ suffix) k in
    join-Names dir _ (rw parts (append_last-Names (split_on b'/' path) a b c suffix h))
    ∙ ap (λ p. dir ++ p) parts
