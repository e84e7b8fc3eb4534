-- ===== src/Testplan/Owner.antt =====
-- testplan.py: which test point `testpointForTest` finds.
use covsight_core.Prelude.{
  ◌≡◌, ◌⊎◌, inl, inr, List, [], ◌∷◌, Bool, true, false, Option, none, some, arith, refl, sym, ap,
  ◌∙◌, ◌||◌, In, All, All-mono, Bool-cases, Option-cases,
}
use covsight_core.Prelude.Text.{Text, text_same, text_same_iff, text_key}
use covsight_core.Prelude.Dict.{Dict, lookup, put, lookup-put}
use covsight_core.Testplan.{Testpoint, Testplan, iter_testpoints}
use covsight_core.Testplan.Index.{
  strip_seed, wildcard_matches, put_tests, index_tests, find_wildcard, search_index,
  testpoint_for_test,
}
use covsight_core.Testplan.Current.{IsCurrent, ensure_indexed-tests}

-- A pattern of a test point names a test: literally, without the seed, or as a wildcard.
unfoldable pub matches : Text → Text → Bool
matches pattern name =
    text_same pattern name || (text_same pattern (strip_seed name) || wildcard_matches pattern name)

-- The answer is a test point of the plan with a matching pattern, or there is no such test point.
abbrev pub Answers : Text → List Testpoint → Option Testpoint → Type 0
Answers name tps none = All (λ tp. All (λ p. matches p name ≡ false) tp.tests) tps
Answers name tps (some tp) = In tp tps × ((p : Text) × In p tp.tests × (matches p name ≡ true))

abbrev Lists : List Testpoint → Text × Testpoint → Type 0
Lists tps entry = In entry.1 tps × In entry.0 entry.1.tests

some_eq : {a b : Testpoint} → some a ≡ some b → a ≡ b
some_eq h = cc

module _ (P : Text × Testpoint → Type 0) where
  put-All :
      (k : Text) (tp : Testpoint) (d : Dict Text Testpoint)
      → P (k, tp)
      → All P d
      → All P (put k tp d)
  unfolding put
  put-All k tp [] h all = (h, tt)
  put-All k tp ((j, old) ∷ d) h all = elim (Bool-cases (text_same j k)) [
    | inl same ↦ rw same (rw ((text_same_iff j k).0 same) h, all.1)
    | inr other ↦ rw other (all.0, put-All k tp d h all.1)
  ]

  lookup-All :
      (k : Text) (d : Dict Text Testpoint) (tp : Testpoint)
      → lookup k d ≡ some tp
      → All P d
      → P (k, tp)
  unfolding lookup
  lookup-All k [] tp found all = absurd (cc)
  lookup-All k ((j, old) ∷ d) tp found all = elim (Bool-cases (text_same j k)) [
    | inl same ↦
        let kept : old ≡ tp = some_eq (rw same at found) in
        rw (← ((text_same_iff j k).0 same), ← kept) all.0
    | inr other ↦ lookup-All k d tp (rw other at found) all.1
  ]

  find_wildcard-All :
      (name : Text) (d : Dict Text Testpoint) (tp : Testpoint)
      → find_wildcard name d ≡ some tp
      → All P d
      → (p : Text) × P (p, tp) × (wildcard_matches p name ≡ true)
  unfolding find_wildcard
  find_wildcard-All name [] tp found all = absurd (cc)
  find_wildcard-All name ((j, old) ∷ d) tp found all = elim (Bool-cases (wildcard_matches j name)) [
    | inl same ↦ let kept : old ≡ tp = some_eq (rw same at found) in (j, rw (← kept) all.0, same)
    | inr other ↦ find_wildcard-All name d tp (rw other at found) all.1
  ]

put_tests-All :
    (all : List Testpoint) (tp : Testpoint) (ts : List Text) (d : Dict Text Testpoint)
    → In tp all
    → All (λ t. In t tp.tests) ts
    → All (Lists all) d
    → All (Lists all) (put_tests tp ts d)
unfolding put_tests
put_tests-All all tp [] d here listed h = h
put_tests-All all tp (t ∷ ts) d here listed h =
    put_tests-All all tp ts (put t tp d) here listed.1
      (put-All (Lists all) t tp d (here, listed.0) h)

In-All : {A : Type 0} (xs : List A) → All (λ x. In x xs) xs
In-All [] = tt
In-All (x ∷ xs) = (inl refl, All-mono (λ y m. inr m) xs (In-All xs))

index_tests-All :
    (all tps : List Testpoint) (d : Dict Text Testpoint)
    → All (λ tp. In tp all) tps
    → All (Lists all) d
    → All (Lists all) (index_tests tps d)
unfolding index_tests
index_tests-All all [] d here h = h
index_tests-All all (tp ∷ tps) d here h =
    index_tests-All all tps (put_tests tp tp.tests d) here.1
      (put_tests-All all tp tp.tests d here.0 (In-All tp.tests) h)

abbrev Present : Dict Text Testpoint → Text → Type 0
Present d p = (tp : Testpoint) × (lookup p d ≡ some tp)

Present-put :
    (k p : Text) (tp : Testpoint) (d : Dict Text Testpoint) → Present d p → Present (put k tp d) p
Present-put k p tp d (old, h) = elim (Bool-cases (text_same k p)) [
  | inl same ↦ (tp, lookup-put k p tp d ∙ (rw same))
  | inr other ↦ (old, lookup-put k p tp d ∙ (rw other h))
]

Present-put_tests :
    (p : Text) (tp : Testpoint) (ts : List Text) (d : Dict Text Testpoint)
    → Present d p
    → Present (put_tests tp ts d) p
unfolding put_tests
Present-put_tests p tp [] d h = h
Present-put_tests p tp (t ∷ ts) d h =
    Present-put_tests p tp ts (put t tp d) (Present-put t p tp d h)

Present-index_tests :
    (p : Text) (tps : List Testpoint) (d : Dict Text Testpoint)
    → Present d p
    → Present (index_tests tps d) p
unfolding index_tests
Present-index_tests p [] d h = h
Present-index_tests p (tp ∷ tps) d h =
    Present-index_tests p tps (put_tests tp tp.tests d) (Present-put_tests p tp tp.tests d h)

put_tests-Present :
    (tp : Testpoint) (ts : List Text) (d : Dict Text Testpoint)
    → All (Present (put_tests tp ts d)) ts
unfolding put_tests
put_tests-Present tp [] d = tt
put_tests-Present tp (t ∷ ts) d = (
  Present-put_tests t tp ts (put t tp d)
      (tp, lookup-put t t tp d ∙ (rw ((text_same_iff t t).1 refl))),
  put_tests-Present tp ts (put t tp d),
)

index_tests-Present :
    (tps : List Testpoint) (d : Dict Text Testpoint)
    → All (λ tp. All (Present (index_tests tps d)) tp.tests) tps
unfolding index_tests
index_tests-Present [] d = tt
index_tests-Present (tp ∷ tps) d = (
  All-mono (λ p h. Present-index_tests p tps (put_tests tp tp.tests d) h) tp.tests
      (put_tests-Present tp tp.tests d),
  index_tests-Present tps (put_tests tp tp.tests d),
)

find_wildcard-Present :
    (name p : Text) (d : Dict Text Testpoint)
    → find_wildcard name d ≡ none
    → Present d p
    → wildcard_matches p name ≡ false
unfolding find_wildcard lookup
find_wildcard-Present name p [] h (tp, present) = cc
find_wildcard-Present name p ((j, old) ∷ d) h (tp, present) =
    elim (Bool-cases (wildcard_matches j name)) [
      | inl hit ↦ absurd (some_ne_none (rw hit at h))
      | inr miss ↦ elim (Bool-cases (text_same j p)) [
        | inl same ↦ rw (← ((text_same_iff j p).0 same)) miss
        | inr other ↦ find_wildcard-Present name p d (rw miss at h) (tp, rw other at present)
      ]
    ]
  where
    some_ne_none : {a : Testpoint} → some a ≡ none → ⊥
    some_ne_none e = cc

-- What the search found, by its steps.
search-none :
    (name : Text) (d : Dict Text Testpoint)
    → search_index name d ≡ none
    → (lookup name d ≡ none) × (lookup (strip_seed name) d ≡ none) × (find_wildcard name d ≡ none)
unfolding search_index
search-none name d h = ground (arith, text_same_iff (strip_seed name) name)

search-some :
    (name : Text) (d : Dict Text Testpoint) (tp : Testpoint)
    → search_index name d ≡ some tp
    → (lookup name d ≡ some tp)
      ⊎ ((lookup (strip_seed name) d ≡ some tp) ⊎ (find_wildcard name d ≡ some tp))
unfolding search_index
search-some name d tp h = ground arith

Present-differs :
    (name p : Text) (d : Dict Text Testpoint)
    → lookup name d ≡ none
    → Present d p
    → text_same p name ≡ false
Present-differs name p d missing (tp, present) = elim (Bool-cases (text_same p name)) [
  | inl same ↦
      absurd (clash (sym present ∙ ap (λ t. lookup t d) ((text_same_iff p name).0 same) ∙ missing))
  | inr other ↦ other
]
  where
    clash : some tp ≡ none → ⊥
    clash e = cc

unmatched :
    (name p : Text) (d : Dict Text Testpoint)
    → search_index name d ≡ none
    → Present d p
    → matches p name ≡ false
unfolding matches
unmatched name p d h present =
    let missing = search-none name d h in
    rw (
      Present-differs name p d missing.0 present,
      Present-differs (strip_seed name) p d missing.1 present,
      find_wildcard-Present name p d missing.2 present,
    )

Answers-none :
    (name : Text) (tps : List Testpoint)
    → search_index name (index_tests tps []) ≡ none
    → Answers name tps none
Answers-none name tps h =
    All-mono
      (λ tp listed.
        All-mono (λ p present. unmatched name p (index_tests tps []) h present) tp.tests listed)
      tps (index_tests-Present tps [])

Answers-some :
    (name : Text) (tps : List Testpoint) (tp : Testpoint)
    → search_index name (index_tests tps []) ≡ some tp
    → Answers name tps (some tp)
unfolding matches
Answers-some name tps tp h =
    let d = index_tests tps [] in
    let all = index_tests-All tps tps [] (In-All tps) tt in
    elim (search-some name d tp h) [
      | inl exact ↦
          let listed = lookup-All (Lists tps) name d tp exact all in
          (listed.0, (name, listed.1, rw ((text_same_iff name name).1 refl)))
      | inr (inl stripped) ↦
          let listed = lookup-All (Lists tps) (strip_seed name) d tp stripped all in
          (
            listed.0,
            (
              strip_seed name,
              listed.1,
              ground (arith, text_same_iff (strip_seed name) (strip_seed name)),
            ),
          )
      | inr (inr wild) ↦
          let (p, listed, hit) = find_wildcard-All (Lists tps) name d tp wild all in
          (listed.0, (p, listed.1, ground arith))
    ]

-- Where the indexes are current or not built, looking up the owner of a test answers with a test point
-- of the plan that has a pattern matching the test: the test's name, its name without a seed, or a
-- wildcard. It answers with none only if no pattern of any test point matches.
pub testpoint_for_test-Answers :
    (name : Text) (plan : Testplan)
    → IsCurrent plan
    → Answers name (iter_testpoints plan) (testpoint_for_test name plan).1
unfolding testpoint_for_test
testpoint_for_test-Answers name plan current =
    rw (ensure_indexed-tests plan current) (answered name (iter_testpoints plan))
  where
    answered :
        (name : Text) (tps : List Testpoint)
        → Answers name tps (search_index name (index_tests tps []))
    answered name tps = elim (Option-cases (search_index name (index_tests tps []))) [
      | inl missing ↦ rw missing (Answers-none name tps missing)
      | inr (tp, found) ↦ rw found (Answers-some name tps tp found)
    ]
