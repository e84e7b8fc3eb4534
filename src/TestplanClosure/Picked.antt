-- ===== src/TestplanClosure/Picked.antt =====
-- testplan_closure.py: which tests of the history the patterns of a test point match.
use covsight_core.Prelude.{
  and_left, ◌≡◌, ◌⊎◌, ◌↔◌, inl, inr, List, [], ◌∷◌, Bool, true, false, not, ◌&&◌, any, In, In-first,
  In-second, In-either, arith, refl, sym, ◌∙◌, Bool-cases, if◌then◌else◌,
}
use mathlib.Core.Path.{subst}
use covsight_core.Prelude.Text.{Text, codes, text_same, text_same_iff, text_key}
use covsight_core.Testplan.Index.{starts_with, ends_with, but_last, strip_seed}
use covsight_core.TestplanClosure.{
  Outcomes, Tally, known, count_test, count_prefix, candidates, count_pattern, count_patterns,
}
use covsight_core.TestplanClosure.Known.{known-In, In-known}

-- A pattern that names a test stands for it. One that names none stands for the test that its name
-- without the seed names, and if that names none either, and it ends in `_*`, for the tests that begin
-- with what is before the `*`.
abbrev pub Picks : Outcomes → Text → Text → Type 0
Picks o p t =
    ((known o p ≡ true) × (t ≡ p))
    ⊎ ((known o p ≡ false)
        × ((((not (text_same (strip_seed p) p) && known o (strip_seed p)) ≡ true)
              × (t ≡ strip_seed p))
            ⊎ (((not (text_same (strip_seed p) p) && known o (strip_seed p)) ≡ false)
                × (ends_with (codes "_*") p ≡ true)
                × (known o t ≡ true)
                × (starts_with (but_last p) t ≡ true))))

abbrev pub Picked : Outcomes → List Text → Text → Type 0
Picked o ps t = (p : Text) × In p ps × Picks o p t

clash : true ≡ false → ⊥
clash e = cc

In-one : (t u : Text) → In t (u ∷ []) → t ≡ u
In-one t u (inl same) = same
In-one t u (inr none) = absurd none

any-In : (t : Text) (xs : List Text) → any (text_same t) xs ≡ true → In t xs
any-In t [] h = cc
any-In t (x ∷ xs) h = elim (Bool-cases (text_same t x)) [
  | inl same ↦ inl ((text_same_iff t x).0 same)
  | inr other ↦ inr (any-In t xs (rw other at h))
]

module _ (o : Outcomes) where
  count_test-In :
      (u : Text) (y : Tally) (t : Text)
      → In t (count_test o u y).matched ↔ (In t y.matched ⊎ (t ≡ u))
  unfolding count_test
  count_test-In u y t = (
    (λ h. elim (In-either t y.matched (u ∷ []) h) [
      | inl left ↦ inl left
      | inr right ↦ inr (In-one t u right)
    ]),
    (λ h. elim h [
      | inl left ↦ In-first t y.matched (u ∷ []) left
      | inr same ↦ In-second t y.matched (u ∷ []) (inl same)
    ]),
  )

  prefix_step :
      (prefix : Text) (u : Text) (ts : List Text) (y : Tally) (t : Text) (b : Bool)
      → ((z : Tally)
          → In t (count_prefix o prefix ts z).matched
            ↔ (In t z.matched ⊎ (In t ts × (starts_with prefix t ≡ true))))
      → (starts_with prefix u && not (any (text_same u) y.matched)) ≡ b
      → In t (count_prefix o prefix ts (if b then count_test o u y else y)).matched
        ↔ (In t y.matched ⊎ (In t (u ∷ ts) × (starts_with prefix t ≡ true)))
  prefix_step prefix u ts y t true ih hit = (forth, back)
    where
      starts : starts_with prefix u ≡ true
      starts = and_left (starts_with prefix u) _ hit

      taken :
          In t (count_test o u y).matched
          → In t y.matched ⊎ (In t (u ∷ ts) × (starts_with prefix t ≡ true))
      taken h = elim ((count_test-In u y t).0 h) [
        | inl before ↦ inl before
        | inr same ↦ inr (inl same, subst (λ s. starts_with prefix s ≡ true) (sym same) starts)
      ]

      forth :
          In t (count_prefix o prefix ts (count_test o u y)).matched
          → In t y.matched ⊎ (In t (u ∷ ts) × (starts_with prefix t ≡ true))
      forth h = elim ((ih (count_test o u y)).0 h) [
        | inl now ↦ taken now
        | inr later ↦ inr (inr later.0, later.1)
      ]

      back :
          In t y.matched ⊎ (In t (u ∷ ts) × (starts_with prefix t ≡ true))
          → In t (count_prefix o prefix ts (count_test o u y)).matched
      back (inl before) = (ih (count_test o u y)).1 (inl ((count_test-In u y t).1 (inl before)))
      back (inr (inl same, st)) =
          (ih (count_test o u y)).1 (inl ((count_test-In u y t).1 (inr same)))
      back (inr (inr later, st)) = (ih (count_test o u y)).1 (inr (later, st))
  prefix_step prefix u ts y t false ih miss = (forth, back)
    where
      there :
          (c : Bool)
          → (c && not (any (text_same u) y.matched)) ≡ false
          → c ≡ true
          → any (text_same u) y.matched ≡ true
      there c e f = ground arith

      forth :
          In t (count_prefix o prefix ts y).matched
          → In t y.matched ⊎ (In t (u ∷ ts) × (starts_with prefix t ≡ true))
      forth h = elim ((ih y).0 h) [ inl now ↦ inl now | inr later ↦ inr (inr later.0, later.1) ]

      back :
          In t y.matched ⊎ (In t (u ∷ ts) × (starts_with prefix t ≡ true))
          → In t (count_prefix o prefix ts y).matched
      back (inl before) = (ih y).1 (inl before)
      back (inr (inl same, st)) = (ih y).1 (
          inl (
            subst (λ s. In s y.matched) (sym same)
              (any-In u y.matched (
                there (starts_with prefix u) miss
                  (subst (λ s. starts_with prefix s ≡ true) same st)))))
      back (inr (inr later, st)) = (ih y).1 (inr (later, st))

  count_prefix-In :
      (prefix : Text) (ts : List Text) (y : Tally) (t : Text)
      → In t (count_prefix o prefix ts y).matched
        ↔ (In t y.matched ⊎ (In t ts × (starts_with prefix t ≡ true)))
  unfolding count_prefix
  count_prefix-In prefix [] y t =
      ((λ h. inl h), (λ h. elim h [ inl left ↦ left | inr none ↦ absurd none.0 ]))
  count_prefix-In prefix (u ∷ ts) y t =
      prefix_step prefix u ts y t _ (λ z. count_prefix-In prefix ts z t) refl

  -- The body of count_pattern, with its tests as arguments.
  abbrev count_by : Bool → Bool → Bool → Text → Tally → Tally
  count_by literal stripped wild p y =
      if literal
      then count_test o p y
      else if stripped
      then count_test o (strip_seed p) y
      else if wild
      then count_prefix o (but_last p) (candidates o) y
      else y

  count_by-In :
      (literal stripped wild : Bool) (p : Text) (y : Tally) (t : Text)
      → known o p ≡ literal
      → (not (text_same (strip_seed p) p) && known o (strip_seed p)) ≡ stripped
      → ends_with (codes "_*") p ≡ wild
      → In t (count_by literal stripped wild p y).matched ↔ (In t y.matched ⊎ Picks o p t)
  count_by-In true stripped wild p y t k s w = (forth, back)
    where
      forth : In t (count_test o p y).matched → In t y.matched ⊎ Picks o p t
      forth h = elim ((count_test-In p y t).0 h) [
        | inl before ↦ inl before
        | inr same ↦ inr (inl (k, same))
      ]

      back : In t y.matched ⊎ Picks o p t → In t (count_test o p y).matched
      back (inl before) = (count_test-In p y t).1 (inl before)
      back (inr (inl picked)) = (count_test-In p y t).1 (inr picked.1)
      back (inr (inr picked)) = absurd (clash (sym k ∙ picked.0))
  count_by-In false true wild p y t k s w = (forth, back)
    where
      forth : In t (count_test o (strip_seed p) y).matched → In t y.matched ⊎ Picks o p t
      forth h = elim ((count_test-In (strip_seed p) y t).0 h) [
        | inl before ↦ inl before
        | inr same ↦ inr (inr (k, inl (s, same)))
      ]

      back : In t y.matched ⊎ Picks o p t → In t (count_test o (strip_seed p) y).matched
      back (inl before) = (count_test-In (strip_seed p) y t).1 (inl before)
      back (inr (inl picked)) = absurd (clash (sym picked.0 ∙ k))
      back (inr (inr (k', inl picked))) = (count_test-In (strip_seed p) y t).1 (inr picked.1)
      back (inr (inr (k', inr picked))) = absurd (clash (sym s ∙ picked.0))
  count_by-In false false true p y t k s w = (forth, back)
    where
      forth :
          In t (count_prefix o (but_last p) (candidates o) y).matched → In t y.matched ⊎ Picks o p t
      forth h = elim ((count_prefix-In (but_last p) (candidates o) y t).0 h) [
        | inl before ↦ inl before
        | inr found ↦ inr (inr (k, inr (s, w, In-known o t found.0, found.1)))
      ]

      back :
          In t y.matched ⊎ Picks o p t → In t (count_prefix o (but_last p) (candidates o) y).matched
      back (inl before) = (count_prefix-In (but_last p) (candidates o) y t).1 (inl before)
      back (inr (inl picked)) = absurd (clash (sym picked.0 ∙ k))
      back (inr (inr (k', inl picked))) = absurd (clash (sym picked.0 ∙ s))
      back (inr (inr (k', inr (s', w', there, st)))) =
          (count_prefix-In (but_last p) (candidates o) y t).1 (inr (known-In o t there, st))
  count_by-In false false false p y t k s w = ((λ h. inl h), back)
    where
      back : In t y.matched ⊎ Picks o p t → In t y.matched
      back (inl before) = before
      back (inr (inl picked)) = absurd (clash (sym picked.0 ∙ k))
      back (inr (inr (k', inl picked))) = absurd (clash (sym picked.0 ∙ s))
      back (inr (inr (k', inr (s', w', there, st)))) = absurd (clash (sym w' ∙ w))

  count_pattern-In :
      (p : Text) (y : Tally) (t : Text)
      → In t (count_pattern o p y).matched ↔ (In t y.matched ⊎ Picks o p t)
  unfolding count_pattern
  count_pattern-In p y t = count_by-In _ _ _ p y t refl refl refl

  patterns_step :
      (p : Text) (ps : List Text) (y : Tally) (t : Text) (M N : Type 0)
      → (N ↔ (In t y.matched ⊎ Picks o p t))
      → (M ↔ (N ⊎ Picked o ps t))
      → M ↔ (In t y.matched ⊎ Picked o (p ∷ ps) t)
  patterns_step p ps y t M N first rest = ((λ h. forth (rest.0 h)), back)
    where
      forth : N ⊎ Picked o ps t → In t y.matched ⊎ Picked o (p ∷ ps) t
      forth (inl now) = elim (first.0 now) [
        | inl before ↦ inl before
        | inr picks ↦ inr (p, inl refl, picks)
      ]
      forth (inr (q, listed, picks)) = inr (q, inr listed, picks)

      back : In t y.matched ⊎ Picked o (p ∷ ps) t → M
      back (inl before) = rest.1 (inl (first.1 (inl before)))
      back (inr (q, inl same, picks)) =
          rest.1 (inl (first.1 (inr (subst (λ s. Picks o s t) same picks))))
      back (inr (q, inr listed, picks)) = rest.1 (inr (q, listed, picks))

  -- The patterns add exactly the tests that they stand for.
  pub count_patterns-In :
      (ps : List Text) (y : Tally) (t : Text)
      → In t (count_patterns o ps y).matched ↔ (In t y.matched ⊎ Picked o ps t)
  unfolding count_patterns
  count_patterns-In [] y t =
      ((λ h. inl h), (λ h. elim h [ inl left ↦ left | inr none ↦ absurd none.1 ]))
  count_patterns-In (p ∷ ps) y t =
      patterns_step p ps y t (In t (count_patterns o ps (count_pattern o p y)).matched)
        (In t (count_pattern o p y).matched) (count_pattern-In p y t)
        (count_patterns-In ps (count_pattern o p y) t)
