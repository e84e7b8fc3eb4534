-- ===== src/Squash/Preserve/Parts.antt =====
-- The invariant of archives, and the pieces of a squash against it.
use mathlib.Core.Bool.{false≢true}
use covsight_core.Prelude.{
  ℕ, ◌≡◌, ◌≢◌, ◌⊎◌, List, [], ◌∷◌, ◌++◌, Bool, false, none, some, ok, refl, All, Option-cases, inl,
  inr, sym, ◌∙◌, ap,
}
use covsight_core.Prelude.Text.{Text, text_same, text_same_iff, text_differ, text_key}
use covsight_core.Prelude.Dict.{Dict, lookup, put, lookup-put, update}
use covsight_core.Varint.{Bytes}
use covsight_core.Counts
use covsight_core.Multirun.{
  Archive, RunEntry, RunTable, RunsJson, baseline_run_id, member_counts, member_runs,
  member_merge_ops, contains, read_counts, table_serialize, table_deserialize, read_run_table,
  rewrite,
}
use covsight_core.Multirun.Table.{
  combine, total, combine_assoc, combine-zero, DistinctMembers, zero-combine,
}
use covsight_core.Multirun.Resolve.{array, IsResolvable, IsMerge, padded-IsMerge}
use covsight_core.Squash.{member_squash_log, baseline_arrays, merge_all}

-- The baseline's entry owns `counts.bin`; any other owns a member of its own, none of the archive's.
abbrev pub IsOwned : RunEntry → Type 0
IsOwned e =
    ((e.run_id ≡ baseline_run_id) × (e.member ≡ member_counts))
    ⊎ ((e.run_id ≢ baseline_run_id)
        × (e.member ≢ member_counts)
        × (e.member ≢ member_runs)
        × (e.member ≢ member_merge_ops)
        × (e.member ≢ member_squash_log))

-- The invariant of archives: the runs can be resolved, no two runs share a member, and `counts.bin`
-- is there only if the table lists the baseline.
pub record IsSquashable (json : RunsJson) (a : Archive) (t : RunTable) (ops : Dict ℕ ℕ)
    : Type 0 where
  pub resolvable : IsResolvable json a t ops
  pub distinct_members : DistinctMembers t
  pub owned : All IsOwned t
  pub baseline_listed : contains t baseline_run_id ≡ false → lookup member_counts a ≡ none

pub owned_baseline :
    (e : RunEntry) → IsOwned e → e.run_id ≡ baseline_run_id → e.member ≡ member_counts
owned_baseline e (inl h) p = h.1
owned_baseline e (inr h) p = absurd (h.0 p)

pub owned_other : (e : RunEntry) → IsOwned e → e.run_id ≢ baseline_run_id → e.member ≢ member_counts
owned_other e (inl h) n = absurd (n h.0)
owned_other e (inr h) n = h.1

-- Members with different names.
counts_is_not : (m : Text) → text_same member_counts m ≡ false → member_counts ≢ m
counts_is_not m f p = false≢true (sym f ∙ (text_same_iff member_counts m).1 p)

pub owned_reserved :
    (e : RunEntry)
    → IsOwned e
    → (e.member ≢ member_runs) × (e.member ≢ member_merge_ops) × (e.member ≢ member_squash_log)
owned_reserved e (inl h) = (
  (λ p. counts_is_not member_runs refl (sym h.1 ∙ p)),
  (λ p. counts_is_not member_merge_ops refl (sym h.1 ∙ p)),
  (λ p. counts_is_not member_squash_log refl (sym h.1 ∙ p)),
)
owned_reserved e (inr h) = (h.2, h.3, h.4)

-- What was written as the table of an archive is read back as its table.
table_of :
    (json : RunsJson) (t : RunTable) (bytes : Bytes)
    → table_serialize json t ≡ bytes
    → table_deserialize json bytes ≡ ok t
unfolding table_deserialize table_serialize
table_of json t [] e = absurd (json.dumps-ne-nil (record { version = some 1; runs = t }) e)
table_of json t (b ∷ bytes) e =
    rw (← e, json.loads-dumps (record { version = some 1; runs = t })) refl

pub lookup-put_ne :
    (k m : Text) (v : Bytes) (a : Archive) → k ≢ m → lookup m (put k v a) ≡ lookup m a
lookup-put_ne k m v a n = rw (lookup-put, text_differ k m n)

pub lookup-put_self : (k : Text) (v : Bytes) (a : Archive) → lookup k (put k v a) ≡ some v
lookup-put_self k v a = rw (lookup-put, (text_same_iff k k).1 refl)

pub read_run_table-rewrite :
    (json : RunsJson) (a : Archive) (t : RunTable)
    → read_run_table json (rewrite json a [] t) ≡ ok t
unfolding read_run_table rewrite update
read_run_table-rewrite json a t =
    rw (lookup-put_self member_runs (table_serialize json t) a, read_run_table)
      (table_of json t (table_serialize json t) refl)

-- A member reads the same in two archives that hold the same of it.
pub read_counts-cong :
    (a b : Archive) (m : Text) → lookup m a ≡ lookup m b → read_counts a m ≡ read_counts b m
unfolding read_counts
read_counts-cong a b m e = rw e

pub array-cong : (a b : Archive) (m : Text) → lookup m a ≡ lookup m b → array a m ≡ array b m
unfolding array
array-cong a b m e = rw (read_counts-cong a b m e, array)

pub array-ok : (a : Archive) (m : Text) (cs : List ℕ) → read_counts a m ≡ ok cs → array a m ≡ cs
unfolding array
array-ok a m cs e = rw (e, array)

-- The baseline's array as the squash reads it: nothing where it is missing or empty.
abbrev pub IsBase : Archive → List (List ℕ) → Type 0
IsBase a bs =
    (baseline_arrays a ≡ ok bs)
    × ((b : Bool) (v : List ℕ → ℕ) → v [] ≡ 0 → total b v bs ≡ v (array a member_counts))

IsBase-missing : (a : Archive) → lookup member_counts a ≡ none → IsBase a []
unfolding baseline_arrays array read_counts total
IsBase-missing a missing = (rw (missing, baseline_arrays), λ b v z. rw (missing, array) (sym z))

IsBase-empty : (a : Archive) → lookup member_counts a ≡ some [] → IsBase a []
unfolding baseline_arrays array read_counts total Counts.deserialize
IsBase-empty a e = (rw (e, baseline_arrays), λ b v z. rw (e, array) (sym z))

IsBase-bytes :
    (a : Archive) (x : ℕ) (bytes : Bytes) (cs : List ℕ)
    → lookup member_counts a ≡ some (x ∷ bytes)
    → read_counts a member_counts ≡ ok cs
    → IsBase a (cs ∷ [])
unfolding baseline_arrays read_counts total
IsBase-bytes a x bytes cs e h = (
  rw (e, baseline_arrays, deserialized),
  λ b v z. combine-zero b (v cs) ∙ ap v (sym (array-ok a member_counts cs h)),
)
  where
    deserialized : Counts.deserialize (x ∷ bytes) ≡ ok cs
    deserialized = rw (e, read_counts) at h

pub baseline_arrays-total :
    (a : Archive)
    → (lookup member_counts a ≡ none) ⊎ (read_counts a member_counts ≡ ok (array a member_counts))
    → (bs : List (List ℕ)) × IsBase a bs
baseline_arrays-total a (inl missing) = ([], IsBase-missing a missing)
baseline_arrays-total a (inr readable) = elim (Option-cases (lookup member_counts a)) [
  | inl missing ↦ ([], IsBase-missing a missing)
  | inr (bytes, e) ↦ present bytes e
]
  where
    present :
        (bytes : Bytes) → lookup member_counts a ≡ some bytes → (bs : List (List ℕ)) × IsBase a bs
    present [] e = ([], IsBase-empty a e)
    present (x ∷ bytes) e =
        (array a member_counts ∷ [], IsBase-bytes a x bytes (array a member_counts) e readable)

-- The merge of the arrays of a squash.
pub merge_all-IsMerge :
    (ops : Dict ℕ ℕ) (arrays : List (List ℕ)) → IsMerge ops arrays (merge_all arrays ops)
unfolding merge_all
merge_all-IsMerge ops [] = record { width = unfold total in refl; bins = λ i. unfold total in refl }
merge_all-IsMerge ops (c ∷ cs) = padded-IsMerge ops c cs

pub total-append :
    {A : Type 0} (b : Bool) (w : A → ℕ) (xs ys : List A)
    → total b w (xs ++ ys) ≡ combine b (total b w xs) (total b w ys)
unfolding total
total-append b w [] ys = sym (zero-combine b (total b w ys))
total-append b w (x ∷ xs) ys =
    ap (combine b (w x)) (total-append b w xs ys)
    ∙ sym (combine_assoc b (w x) (total b w xs) (total b w ys))
