-- ===== src/Metadata/Names.antt =====
-- internal/backup/metadata.go: where a name that a forge supplies leads to, `sanitizeName`.
use backup_git_repos.Base.{
  Text, text, List, [], ◌∷◌, ◌++◌, true, list_eq, nat_eq, lacks, split_on-of_lacks, ◌≡◌, refl, ◌∙◌,
  ap, arith,
}
use backup_git_repos.FilePath.{FilePath, join, is_name}
use backup_git_repos.FilePath.Join.{join-Names}
use backup_git_repos.Metadata.{replace_separator, sanitize_name}

lacks-replace_separator : (s : Text) → lacks b'/' (replace_separator s) ≡ true
unfolding replace_separator lacks
lacks-replace_separator [] = refl
lacks-replace_separator (c ∷ s) = ground (arith, lacks-replace_separator s)

sanitize_name-is_name : (s : Text) → is_name (sanitize_name s) ≡ true
unfolding sanitize_name is_name
sanitize_name-is_name s = ground arith

lacks-sanitize_name : (s : Text) → lacks b'/' (sanitize_name s) ≡ true
unfolding sanitize_name
lacks-sanitize_name s =
    let mark : lacks b'/' (text "_") ≡ true = unfold lacks in refl in
    ground (arith, lacks-replace_separator s, mark)

-- A name of the forge's, sanitized, is one name in the directory that it is joined to.
pub join-sanitize_name :
    (dir : FilePath) (s : Text) → join dir (sanitize_name s) ≡ dir ++ sanitize_name s ∷ []
join-sanitize_name dir s =
    let alone = split_on-of_lacks b'/' (sanitize_name s) (lacks-sanitize_name s) in
    join-Names dir (sanitize_name s) (rw alone (sanitize_name-is_name s, tt))
    ∙ ap (λ (p : List Text). dir ++ p) alone
