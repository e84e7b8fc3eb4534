-- ===== src/Squash/Preserve/Folded.antt =====
-- The archive that a squash writes, and the facts about it that the squash has at hand.
use mathlib.Core.Bool.{false≢true}
use covsight_core.Prelude.{
  ℕ, ◌≡◌, ◌≢◌, List, [], ◌∷◌, ◌++◌, false, none, ok, refl, All, inl, sym, ◌∙◌, ap,
}
use covsight_core.Prelude.Text.{Text, text_same, text_same_iff, text_key}
use covsight_core.Prelude.Dict.{Dict, lookup, put, update}
use covsight_core.Varint.{Bytes}
use covsight_core.Counts
use covsight_core.Multirun.{
  Archive, RunEntry, RunTable, RunsJson, baseline_run_id, baseline_entry, member_counts,
  member_runs, member_merge_ops, get, contains, read_counts, is_some, rewrite, read_ops,
}
use covsight_core.Multirun.Table.{All-get, get-run_id}
use covsight_core.Multirun.Resolve.{array, arrays_of, IsMerge}
use covsight_core.Squash.{member_squash_log, with_baseline}
use covsight_core.Squash.Select.{Selected}
use covsight_core.Squash.Drop.{remove_all, IsDropped}
use covsight_core.Squash.Preserve.Parts.{
  IsOwned, IsSquashable, IsBase, owned_other, owned_reserved, lookup-put_ne, array-ok,
}

abbrev pub written : RunsJson → Archive → Bytes → RunTable → Archive
written json a log left = rewrite json (put member_squash_log log a) [] (with_baseline left)

pub lookup-written :
    (json : RunsJson) (a : Archive) (log : Bytes) (left : RunTable) (m : Text)
    → m ≢ member_runs
    → m ≢ member_squash_log
    → lookup m (written json a log left) ≡ lookup m a
unfolding rewrite update
lookup-written json a log left m n k =
    lookup-put_ne member_runs m _ (put member_squash_log log a) (λ p. n (sym p))
    ∙ lookup-put_ne member_squash_log m log a (λ p. k (sym p))

-- The facts that a squash has at hand when it rewrites the archive.
pub record IsFolded (json : RunsJson) (a : Archive) (t : RunTable) (ops : Dict ℕ ℕ) (rs : List Text)
    (es : List RunEntry) (bs : List (List ℕ)) (m : List ℕ) (counts : Bytes) (a' : Archive)
    : Type 0 where
  pub start : IsSquashable json a t ops
  pub chosen : Selected t rs es
  pub base : IsBase a bs
  pub merge : IsMerge ops (bs ++ arrays_of a es) m
  pub packed : Counts.deserialize counts ≡ ok m
  pub dropped : IsDropped (put member_counts counts a) t es (remove_all t rs) a'

-- The members of the squashed runs are not the archive's own.
pub members_apart :
    (t : RunTable) (rs : List Text) (es : List RunEntry)
    → Selected t rs es
    → All IsOwned t
    → All (λ e. e.member ≢ member_counts) es
members_apart t [] [] s o = tt
members_apart t [] (e ∷ es) s o = absurd s
members_apart t (r ∷ rs) [] s o = absurd s
members_apart t (r ∷ rs) (e ∷ es) s o = (
  owned_other e (All-get IsOwned r t e s.0 o) (λ p. s.1 (sym (get-run_id t r e s.0) ∙ p)),
  members_apart t rs es s.3 o,
)

pub ops_apart : (es : List RunEntry) → All IsOwned es → All (λ e. e.member ≢ member_merge_ops) es
ops_apart [] o = tt
ops_apart (e ∷ es) o = ((owned_reserved e o.0).1, ops_apart es o.1)

pub baseline_reserved :
    (member_counts ≢ member_runs)
    × (member_counts ≢ member_merge_ops)
    × (member_counts ≢ member_squash_log)
baseline_reserved = owned_reserved baseline_entry (inl (refl, refl))

pub merge_ops_is_not : (m : Text) → text_same member_merge_ops m ≡ false → member_merge_ops ≢ m
merge_ops_is_not m f p = false≢true (sym f ∙ (text_same_iff member_merge_ops m).1 p)

pub array_missing : (a : Archive) (k : Text) → lookup k a ≡ none → array a k ≡ []
unfolding array read_counts
array_missing a k e = rw (e, array)

pub same_contains :
    (t u : RunTable)
    → get u baseline_run_id ≡ get t baseline_run_id
    → contains u baseline_run_id ≡ false
    → contains t baseline_run_id ≡ false
unfolding contains
same_contains t u e f = ap is_some (sym e) ∙ f

pub same_ops :
    (a b : Archive)
    → lookup member_merge_ops a ≡ lookup member_merge_ops b
    → read_ops a ≡ read_ops b
unfolding read_ops
same_ops a b e = rw (e, read_ops)

pub read_itself :
    (a : Archive) (k : Text) (cs : List ℕ)
    → read_counts a k ≡ ok cs
    → read_counts a k ≡ ok (array a k)
read_itself a k cs r = r ∙ ap ok (sym (array-ok a k cs r))
