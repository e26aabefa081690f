-- ===== src/Run/Paths.antt =====
-- internal/backup/run.go: where mirrors and archives land, `mirrorPath` and `archivePath`.
use backup_git_repos.Base.{
  Text, text, List, [], ◌∷◌, ◌++◌, ◌≡◌, ◌≢◌, refl, sym, ◌∙◌, ap, true, false, arith, nat_eq,
  list_eq, list_beq_iff, split_on, join_with, join_with-split_on, split_on-append, append_last,
  cut_suffix-append, append-inj, Bool-cases, inl, inr, lacks,
}
use backup_git_repos.FilePath.{FilePath}
use backup_git_repos.FilePath.Join.{ParentNames, join-suffix}
use backup_git_repos.Fs.Update.{at_or_above, at_or_above-append, Apart}
use backup_git_repos.Run.Types.{mirror_path, archive_path}
use backup_git_repos.Run.Scan.{has_suffix}

-- The names below the destination at which a repository's mirror stands.
abbrev pub mirror_parts : Text → List Text
mirror_parts path = append_last (text ".git") (split_on b'/' path)

-- Only the last name ends in `.git`.
abbrev pub OnlyLastGit : List Text → Type 0
OnlyLastGit [] = ⊥
OnlyLastGit (s ∷ []) = Unit
OnlyLastGit (s ∷ t ∷ parts) = (has_suffix s (text ".git") ≡ false) × OnlyLastGit (t ∷ parts)

-- A repository path as forges give them: each namespace is a name that does not end in `.git`.
pub record IsRepoPath (path : Text) : Type 0 where
  pub names : ParentNames (split_on b'/' path)
  pub no_git : OnlyLastGit (split_on b'/' path)

pub mirror_path-parts :
    (dest : FilePath) (path : Text)
    → ParentNames (split_on b'/' path)
    → mirror_path dest path ≡ dest ++ mirror_parts path
unfolding mirror_path lacks
mirror_path-parts dest path h = join-suffix dest path b'.' b'g' b'i' (text "t") h refl

pub archive_path-parts :
    (dest : FilePath) (path : Text)
    → ParentNames (split_on b'/' path)
    → archive_path dest path ≡ dest ++ append_last (text ".tar.gz") (split_on b'/' path)
unfolding archive_path lacks
archive_path-parts dest path h = join-suffix dest path b'.' b't' b'a' (text "r.gz") h refl

pub mirror_parts-joined : (s : Text) → join_with b'/' (mirror_parts s) ≡ s ++ text ".git"
unfolding lacks
mirror_parts-joined s =
    ap (join_with b'/') (sym (split_on-append b'/' s (text ".git") refl))
    ∙ join_with-split_on b'/' (s ++ text ".git")

-- Two repositories never share a mirror.
mirror_parts-inj : (p q : Text) → mirror_parts p ≡ mirror_parts q → p ≡ q
mirror_parts-inj p q h =
    append-inj p q (text ".git")
      (sym (mirror_parts-joined p) ∙ ap (join_with b'/') h ∙ mirror_parts-joined q)

has_suffix-append : (s suffix : Text) → has_suffix (s ++ suffix) suffix ≡ true
unfolding has_suffix
has_suffix-append s suffix = rw (cut_suffix-append s suffix, has_suffix)

-- The names at which a mirror stands: the last one, and no other, ends in `.git`.
abbrev pub EndsMirror : List Text → Type 0
EndsMirror [] = ⊥
EndsMirror (s ∷ []) = has_suffix s (text ".git") ≡ true
EndsMirror (s ∷ t ∷ parts) = (has_suffix s (text ".git") ≡ false) × EndsMirror (t ∷ parts)

pub append_last-EndsMirror :
    (parts : List Text) → OnlyLastGit parts → EndsMirror (append_last (text ".git") parts)
unfolding append_last
append_last-EndsMirror [] h = absurd h
append_last-EndsMirror (s ∷ []) h = has_suffix-append s (text ".git")
append_last-EndsMirror (s ∷ t ∷ []) h = (h.0, append_last-EndsMirror (t ∷ []) h.1)
append_last-EndsMirror (s ∷ t ∷ u ∷ parts) h = (h.0, append_last-EndsMirror (t ∷ u ∷ parts) h.1)

prefix_free : (p q : List Text) → EndsMirror p → EndsMirror q → at_or_above p q ≡ true → p ≡ q
unfolding at_or_above
prefix_free [] q h k a = absurd h
prefix_free (s ∷ p) [] h k a = absurd k
prefix_free (s ∷ []) (t ∷ []) h k a = ground (arith, list_beq_iff s t)
prefix_free (s ∷ []) (t ∷ u ∷ q) h k a = ground (arith, list_beq_iff s t)
prefix_free (s ∷ v ∷ p) (t ∷ []) h k a = ground (arith, list_beq_iff s t)
prefix_free (s ∷ v ∷ p) (t ∷ u ∷ q) h k a =
    ground (arith, list_beq_iff s t, prefix_free (v ∷ p) (u ∷ q) h.1 k.1)

at_or_above-eq-false :
    (p q : List Text) → EndsMirror p → EndsMirror q → p ≢ q → at_or_above p q ≡ false
at_or_above-eq-false p q h k ne = elim (Bool-cases (at_or_above p q)) [
  | inl a ↦ absurd (ne (prefix_free p q h k a))
  | inr a ↦ a
]

pub mirror_path-Apart :
    (dest : FilePath) (p q : Text)
    → IsRepoPath p
    → IsRepoPath q
    → p ≢ q
    → Apart (mirror_path dest p) (mirror_path dest q)
mirror_path-Apart dest p q h k ne =
    let ends = λ (s : Text) (r : IsRepoPath s). append_last-EndsMirror (split_on b'/' s) r.no_git in
    rw
      (
        mirror_path-parts dest p h.names,
        mirror_path-parts dest q k.names,
        at_or_above-append dest (mirror_parts p) (mirror_parts q),
        at_or_above-append dest (mirror_parts q) (mirror_parts p),
      )
      (
        at_or_above-eq-false _ _ (ends p h) (ends q k) (λ e. ne (mirror_parts-inj p q e)),
        at_or_above-eq-false _ _ (ends q k) (ends p h) (λ e. ne (sym (mirror_parts-inj q p e))),
      )

-- What lies below directories that stand apart stands apart.
pub Apart-append : (d e p q : FilePath) → Apart d e → Apart (d ++ p) (e ++ q)
unfolding at_or_above
Apart-append [] e p q h = cc h.0
Apart-append (s ∷ d) [] p q h = cc h.1
Apart-append (s ∷ d) (t ∷ e) p q h =
    ground (arith, list_beq_iff s t, list_beq_iff t s, Apart-append d e p q)
