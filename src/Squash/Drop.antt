-- ===== src/Squash/Drop.antt =====
-- The drop loop: what it leaves of the table and of the members.
use covsight_core.Prelude.{ℕ, ◌≡◌, ◌≢◌, List, [], ◌∷◌, Bool, ok, arith, refl, All, sym, ◌∙◌, ap}
use covsight_core.Prelude.Text.{Text, text_same_iff, text_differ, text_key}
use covsight_core.Prelude.Dict.{lookup, pop, lookup-pop}
use covsight_core.Multirun.{
  Archive, RunEntry, RunTable, baseline_run_id, member_counts, get, remove,
}
use covsight_core.Multirun.Table.{
  combine, total, combine_assoc, total-remove, get-remove_ne, DistinctIds, DistinctMembers,
  DistinctIds-remove, DistinctMembers-remove, remove-other_members, All-remove, All-get,
  zero-combine,
}
use covsight_core.Multirun.Resolve.{Readable, arrays_of, read_counts-lookup}
use covsight_core.Squash.{drop_squashed, squash_arrays}
use covsight_core.Squash.Select.{Selected}

-- The table without the squashed runs.
unfoldable pub remove_all : RunTable → List Text → RunTable
remove_all t [] = t
remove_all t (r ∷ rs) = remove_all (remove r t) rs

pub Selected-remove :
    (t : RunTable) (r : Text) (rs : List Text) (es : List RunEntry)
    → All (λ s. r ≢ s) rs
    → Selected t rs es
    → Selected (remove r t) rs es
Selected-remove t r [] [] n s = tt
Selected-remove t r [] (e ∷ es) n s = absurd s
Selected-remove t r (q ∷ rs) [] n s = absurd s
Selected-remove t r (q ∷ rs) (e ∷ es) n s =
    (get-remove_ne t r q n.0 ∙ s.0, s.1, s.2, Selected-remove t r rs es n.1 s.3)

-- A total over the table is the total over the squashed entries and that over the rest.
pub total-remove_all :
    (b : Bool) (w : RunEntry → ℕ) (t : RunTable) (rs : List Text) (es : List RunEntry)
    → Selected t rs es
    → total b w t ≡ combine b (total b w es) (total b w (remove_all t rs))
unfolding remove_all total
total-remove_all b w t [] [] s = sym (zero-combine b (total b w t))
total-remove_all b w t [] (e ∷ es) s = absurd s
total-remove_all b w t (r ∷ rs) [] s = absurd s
total-remove_all b w t (r ∷ rs) (e ∷ es) s =
    total-remove b w t r e s.0
    ∙ ap (combine b (w e))
        (total-remove_all b w (remove r t) rs es (Selected-remove t r rs es s.2 s.3))
    ∙ sym (combine_assoc b (w e) (total b w es) (total b w (remove_all (remove r t) rs)))

module _ (P : RunEntry → Type 0) where
  pub All-remove_all : (t : RunTable) (rs : List Text) → All P t → All P (remove_all t rs)
  unfolding remove_all
  All-remove_all t [] h = h
  All-remove_all t (r ∷ rs) h = All-remove_all (remove r t) rs (All-remove P r t h)

  pub All-Selected :
      (t : RunTable) (rs : List Text) (es : List RunEntry) → Selected t rs es → All P t → All P es
  All-Selected t [] [] s h = tt
  All-Selected t [] (e ∷ es) s h = absurd s
  All-Selected t (r ∷ rs) [] s h = absurd s
  All-Selected t (r ∷ rs) (e ∷ es) s h = (All-get P r t e s.0 h, All-Selected t rs es s.3 h)

pub get-remove_all :
    (t : RunTable) (rs : List Text) (es : List RunEntry)
    → Selected t rs es
    → get (remove_all t rs) baseline_run_id ≡ get t baseline_run_id
unfolding remove_all
get-remove_all t [] [] s = refl
get-remove_all t [] (e ∷ es) s = absurd s
get-remove_all t (r ∷ rs) [] s = absurd s
get-remove_all t (r ∷ rs) (e ∷ es) s =
    get-remove_all (remove r t) rs es (Selected-remove t r rs es s.2 s.3)
    ∙ get-remove_ne t r baseline_run_id s.1

pub DistinctIds-remove_all :
    (t : RunTable) (rs : List Text) → DistinctIds t → DistinctIds (remove_all t rs)
unfolding remove_all
DistinctIds-remove_all t [] d = d
DistinctIds-remove_all t (r ∷ rs) d =
    DistinctIds-remove_all (remove r t) rs (DistinctIds-remove r t d)

pub DistinctMembers-remove_all :
    (t : RunTable) (rs : List Text) → DistinctMembers t → DistinctMembers (remove_all t rs)
unfolding remove_all
DistinctMembers-remove_all t [] d = d
DistinctMembers-remove_all t (r ∷ rs) d =
    DistinctMembers-remove_all (remove r t) rs (DistinctMembers-remove r t d)

-- What the loop leaves: the table without the runs, the members of the entries that stay, and every
-- member that no squashed run owns.
pub record IsDropped (a : Archive) (t : RunTable) (es : List RunEntry) (left : RunTable)
    (a' : Archive) : Type 0 where
  pub kept : All (λ e. lookup e.member a' ≡ lookup e.member a) left
  pub untouched : (m : Text) → All (λ e. e.member ≢ m) es → lookup m a' ≡ lookup m a

pub lookup-pop_ne : (m k : Text) (a : Archive) → m ≢ k → lookup k (pop m a) ≡ lookup k a
lookup-pop_ne m k a n = rw lookup-pop (ground (arith, text_same_iff m k))

kept_trans :
    (a b c : Archive) (m : Text) (s : RunTable)
    → All (λ e. lookup e.member c ≡ lookup e.member b) s
    → All (λ e. e.member ≢ m) s
    → ((k : Text) → m ≢ k → lookup k b ≡ lookup k a)
    → All (λ e. lookup e.member c ≡ lookup e.member a) s
kept_trans a b c m [] h n f = tt
kept_trans a b c m (e ∷ s) h n f =
    (h.0 ∙ f e.member (λ p. n.0 (sym p)), kept_trans a b c m s h.1 n.1 f)

pub drop_squashed-IsDropped :
    (a : Archive) (t : RunTable) (rs : List Text) (es : List RunEntry)
    → Selected t rs es
    → All (λ e. e.member ≢ member_counts) es
    → DistinctMembers t
    → (a' : Archive) × (drop_squashed a t rs ≡ ok (a', remove_all t rs))
      × IsDropped a t es (remove_all t rs) a'
unfolding drop_squashed remove_all
drop_squashed-IsDropped a t [] [] s n d =
    (a, refl, record { kept = same t; untouched = λ m h. refl })
  where
    same : (u : RunTable) → All (λ e. lookup e.member a ≡ lookup e.member a) u
    same [] = tt
    same (e ∷ u) = (refl, same u)
drop_squashed-IsDropped a t [] (e ∷ es) s n d = absurd s
drop_squashed-IsDropped a t (r ∷ rs) [] s n d = absurd s
drop_squashed-IsDropped a t (r ∷ rs) (e ∷ es) s n d =
    let b = pop e.member a in
    let (c, eq, is) =
      drop_squashed-IsDropped b (remove r t) rs es (Selected-remove t r rs es s.2 s.3) n.1
        (DistinctMembers-remove r t d) in
    (
      c,
      rw (s.0, text_differ e.member member_counts n.0) eq,
      record {
        kept =
            kept_trans a b c e.member (remove_all (remove r t) rs) is.kept
              (All-remove_all (λ f. f.member ≢ e.member) (remove r t) rs
                (remove-other_members r t e s.0 d))
              (λ k h. lookup-pop_ne e.member k a h);
        untouched = λ m h. is.untouched m h.1 ∙ lookup-pop_ne e.member m a h.0;
      },
    )

-- The loop that loads the arrays loads those of the selected entries.
pub squash_arrays-Selected :
    (a : Archive) (t : RunTable) (rs : List Text) (es : List RunEntry)
    → Selected t rs es
    → All (λ e. e.member ≢ member_counts) es
    → Readable a es
    → squash_arrays a t rs ≡ ok (arrays_of a es)
unfolding squash_arrays
squash_arrays-Selected a t [] [] s n h = refl
squash_arrays-Selected a t [] (e ∷ es) s n h = absurd s
squash_arrays-Selected a t (r ∷ rs) [] s n h = absurd s
squash_arrays-Selected a t (r ∷ rs) (e ∷ es) s n h = rw (
  s.0,
  read_counts-lookup a e.member _ h.0,
  text_differ e.member member_counts n.0,
  h.0,
  squash_arrays-Selected a t rs es s.3 n.1 h.1,
)
