-- ===== src/TestplanClosure/Known.antt =====
-- testplan_closure.py: the candidates for a wildcard, and the tests that the history knows.
use covsight_core.Prelude.{
  ℕ, ◌≡◌, inl, inr, List, [], ◌∷◌, Bool, true, false, In, In-first, In-second, In-either, arith,
  refl, ap, sym, ◌∙◌, Bool-cases, if◌then◌else◌,
}
use covsight_core.Prelude.Text.{Text, text_same, text_same_iff, text_key}
use covsight_core.Prelude.Dict.{Dict, lookup}
use covsight_core.TestplanClosure.{has, Outcomes, keys, without, known, candidates}

has_cons :
    (t k : Text) (n : ℕ) (d : Dict Text ℕ)
    → has t ((k, n) ∷ d) ≡ (if text_same k t then true else has t d)
unfolding lookup
has_cons t k n d = ground arith

has-In : (t : Text) (d : Dict Text ℕ) → has t d ≡ true → In t (keys d)
unfolding keys lookup
has-In t [] h = cc
has-In t ((k, n) ∷ d) h = elim (Bool-cases (text_same k t)) [
  | inl same ↦ inl (sym ((text_same_iff k t).0 same))
  | inr other ↦
      inr (
        has-In t d (ap (λ b. if b then true else has t d) (sym other) ∙ sym (has_cons t k n d) ∙ h))
]

In-has : (t : Text) (d : Dict Text ℕ) → In t (keys d) → has t d ≡ true
unfolding keys
In-has t [] h = absurd h
In-has t ((k, n) ∷ d) (inl same) =
    has_cons t k n d ∙ ap (λ b. if b then true else has t d) ((text_same_iff k t).1 (sym same))
In-has t ((k, n) ∷ d) (inr later) = has_cons t k n d ∙ either (text_same k t) (In-has t d later)
  where
    either : (b : Bool) → has t d ≡ true → (if b then true else has t d) ≡ true
    either true e = refl
    either false e = e

without-In :
    (t : Text) (d : Dict Text ℕ) (ts : List Text) → has t d ≡ false → In t ts → In t (without d ts)
unfolding without
without-In t d [] new h = absurd h
without-In t d (u ∷ ts) new (inl same) = rw (ap (λ x. has x d) (sym same) ∙ new) (inl same)
without-In t d (u ∷ ts) new (inr later) = elim (Bool-cases (has u d)) [
  | inl there ↦ rw there (without-In t d ts new later)
  | inr missing ↦ rw missing (inr (without-In t d ts new later))
]

In-without : (t : Text) (d : Dict Text ℕ) (ts : List Text) → In t (without d ts) → In t ts
unfolding without
In-without t d [] h = h
In-without t d (u ∷ ts) h = elim (Bool-cases (has u d)) [
  | inl there ↦ inr (In-without t d ts (rw there at h))
  | inr missing ↦ later (In-without t d ts) (rw missing at h)
]
  where
    later : (In t (without d ts) → In t ts) → In t (u ∷ without d ts) → In t (u ∷ ts)
    later more (inl same) = inl same
    later more (inr h) = inr (more h)

module _ (o : Outcomes) where
  pub known-In : (t : Text) → known o t ≡ true → In t (candidates o)
  known-In t h = elim (Bool-cases (has t o.test_pass)) [
    | inl passed ↦ In-first t (keys o.test_pass) _ (has-In t o.test_pass passed)
    | inr other ↦
        In-second t (keys o.test_pass) _
          (without-In t o.test_pass (keys o.test_fail) other (has-In t o.test_fail (rw other at h)))
  ]

  pub In-known : (t : Text) → In t (candidates o) → known o t ≡ true
  In-known t h = elim (In-either t (keys o.test_pass) _ h) [
    | inl left ↦ rw (In-has t o.test_pass left) refl
    | inr right ↦ in_fail (In-has t o.test_fail (In-without t o.test_pass (keys o.test_fail) right))
  ]
    where
      in_fail : has t o.test_fail ≡ true → known o t ≡ true
      in_fail e = ground arith
