-- ===== src/Fs/Lookup.antt =====
-- Entries of a directory: lookup after a change.
use backup_git_repos.Base.{Text, ◌≡◌, refl, true, Option, none, some, arith, ◌==◌, nat_eq, list_eq}
use backup_git_repos.Base.{list_beq_iff, if◌then◌else◌}
use backup_git_repos.Fs.{Node, Entries, end, entry, find, remove_entry, put_entry, set_entry}

find-remove_entry :
    (j k : Text) (es : Entries) → find j (remove_entry k es) ≡ (if k == j then none else find j es)
unfolding find remove_entry
find-remove_entry j k end = ground arith
find-remove_entry j k (entry i n es) =
    ground (arith, find-remove_entry j k es, list_beq_iff i k, list_beq_iff i j, list_beq_iff k j)

find-put_entry :
    (j k : Text) (n : Node) (es : Entries)
    → find j (put_entry k n es) ≡ (if k == j then some n else find j es)
unfolding find put_entry
find-put_entry j k n end = refl
find-put_entry j k n (entry i m es) =
    ground (arith, find-put_entry j k n es, list_beq_iff i k, list_beq_iff i j, list_beq_iff k j)

pub find-set_entry :
    (j k : Text) (o : Option Node) (es : Entries)
    → find j (set_entry k o es) ≡ (if k == j then o else find j es)
unfolding set_entry
find-set_entry j k none es = find-remove_entry j k es
find-set_entry j k (some n) es = find-put_entry j k n es

list_beq_self : (s : Text) → (s == s) ≡ true
list_beq_self s = (list_beq_iff s s).1 refl

pub find-set_entry_self :
    (k : Text) (o : Option Node) (es : Entries) → find k (set_entry k o es) ≡ o
find-set_entry_self k o es = rw (find-set_entry, list_beq_self k)
