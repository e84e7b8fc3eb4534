-- ===== src/Multirun/Names.antt =====
-- The members of runs: a name determines its index, and a new run gets a member of its own.
use mathlib.Core.Bool.{false≢true}
use mathlib.Core.Option.{some-injective}
use covsight_core.Prelude.{
  ==_iff, ℕ, zero, suc, ◌+◌, ◌≤◌, ◌<◌, ◌≡◌, ◌≢◌, List, [], ◌∷◌, ◌++◌, true, false, ◌||◌, Option,
  none, some, ◌==◌, leb, if◌then◌else◌, length, arith, refl, All, Bool-cases, Option-cases, inl,
  inr, sym, ◌∙◌, ap,
}
use covsight_core.Prelude.Text.{
  strip_prefix, strip_prefix-append, zero_padded, zero_padded-starts, read-zero_padded,
}
use covsight_core.Multirun.{
  RunEntry, RunTable, run_prefix, run_suffix, run_member_name, match_member, mem, used_indices,
  first_free, next_member_index,
}

-- The pattern reads the index of a run's member back, however many digits it has.
pub match_member-run_member_name : (index : ℕ) → match_member (run_member_name index) ≡ some index
unfolding match_member run_member_name
match_member-run_member_name index = rw (
  strip_prefix-append run_prefix (zero_padded 5 index ++ run_suffix),
  zero_padded-starts 5 index run_suffix,
  read-zero_padded 5 index run_suffix refl,
)

-- How many of the indices are not below `i`.
abbrev above : ℕ → List ℕ → ℕ
above i [] = 0
above i (x ∷ xs) = if leb i x then suc (above i xs) else above i xs

above-suc : (i : ℕ) (xs : List ℕ) → above (i + 1) xs ≤ above i xs
above-suc i [] = omega arith
above-suc i (x ∷ xs) = ground (arith, above-suc i xs)

above-mem : (i : ℕ) (xs : List ℕ) → mem i xs ≡ true → above (i + 1) xs < above i xs
above-mem i [] h = cc
above-mem i (x ∷ xs) h = ground (arith, above-suc i xs, above-mem i xs)

above-length : (i : ℕ) (xs : List ℕ) → above i xs ≤ length xs
above-length i [] = omega arith
above-length i (x ∷ xs) = ground (arith, above-length i xs)

first_free-free :
    (fuel i : ℕ) (used : List ℕ) → above i used < fuel → mem (first_free fuel i used) used ≡ false
unfolding first_free
first_free-free zero i used h = absurd (omega arith)
first_free-free (suc fuel) i used h = elim (Bool-cases (mem i used)) [
  | inl taken ↦ rw taken (first_free-free fuel (i + 1) used (omega (arith, above-mem i used taken)))
  | inr free ↦ rw free free
]

next-free :
    (t : RunTable) (taken : List ℕ) → mem (next_member_index t taken) (used_indices taken t) ≡ false
unfolding next_member_index
next-free t taken =
    first_free-free (suc (length (used_indices taken t))) 0 (used_indices taken t)
      (omega (arith, above-length 0 (used_indices taken t)))

used_indices-cons :
    (i : ℕ) (e : RunEntry) (t : RunTable) (taken : List ℕ)
    → mem i (used_indices taken (e ∷ t)) ≡ false
    → (mem i (used_indices taken t) ≡ false) × (match_member e.member ≢ some i)
unfolding used_indices match_member strip_prefix
used_indices-cons i e t taken h = elim (Option-cases (match_member e.member)) [
  | inl missing ↦ (rw missing at h, λ p. none≢some (sym missing ∙ p))
  | inr (j, found) ↦
      let (other, rest) = neither j (rw found at h) in
      (rest, λ p. false≢true (sym other ∙ (==_iff j i).1 (some-injective j i (sym found ∙ p))))
]
  where
    none≢some : ¬ (◌≡◌ {A = Option ℕ} none (some i))
    none≢some p = cc

    neither :
        (j : ℕ)
        → ((j == i) || mem i (used_indices taken t)) ≡ false
        → ((j == i) ≡ false) × (mem i (used_indices taken t) ≡ false)
    neither j h = ground arith

claimed_apart :
    (i : ℕ) (t : RunTable) (taken : List ℕ)
    → mem i (used_indices taken t) ≡ false
    → mem i taken ≡ false
claimed_apart i [] taken h = unfold used_indices in h
claimed_apart i (e ∷ t) taken h = claimed_apart i t taken (used_indices-cons i e t taken h).0

table_apart :
    (i : ℕ) (t : RunTable) (taken : List ℕ)
    → mem i (used_indices taken t) ≡ false
    → All (λ e. e.member ≢ run_member_name i) t
table_apart i [] taken h = tt
table_apart i (e ∷ t) taken h =
    let (rest, other) = used_indices-cons i e t taken h in
    ((λ p. other (ap match_member p ∙ match_member-run_member_name i)), table_apart i t taken rest)

-- The member that a new run gets is named by no entry of the table, and its index is none of those
-- claimed earlier in the same rewrite: the search always ends at a free index.
pub next_member_index-free :
    (t : RunTable) (taken : List ℕ)
    → All (λ e. e.member ≢ run_member_name (next_member_index t taken)) t
      × (mem (next_member_index t taken) taken ≡ false)
next_member_index-free t taken =
    (table_apart _ t taken (next-free t taken), claimed_apart _ t taken (next-free t taken))

-- Runs with different indices have different members.
pub run_member_name-injective : (i j : ℕ) → run_member_name i ≡ run_member_name j → i ≡ j
run_member_name-injective i j p =
    some-injective i j
      (sym (match_member-run_member_name i) ∙ ap match_member p ∙ match_member-run_member_name j)
