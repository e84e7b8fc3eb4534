-- ===== src/DbMerger/Crosses/Settled.antt =====
-- db_merger.py: which groups of `_group` have an object of an earlier source.
use mathlib.Core.Path.{subst}
use covsight_core.Prelude.{
  ℕ, zero, suc, ◌≤◌, ◌<◌, ◌≡◌, ◌⊎◌, List, [], ◌∷◌, Option, none, some, ok, length, take, set,
  replicate, All, if◌then◌else◌, arith, refl, ap, sym, ◌∙◌, inl, inr, Bool-cases,
}
use covsight_core.Prelude.Keys.{nat_key, pair_key}
use covsight_core.Prelude.Text.{Text, text_key}
use covsight_core.Prelude.Dict.{Dict, lookup, put}
use covsight_core.DbMerger.{Groups, slots_or, present, Tree, obj_of, check_cross}
use covsight_core.DbMerger.Group.{seen_of, seen_of-put}
use covsight_core.DbMerger.Filled.{NonEmpty}
use covsight_core.DbMerger.Crosses.{IsReady}

-- While source `i` is gone through: a group has an object of an earlier source, or its occurrence was
-- already seen; and in any case an object of this source or an earlier one.
abbrev pub Settled : ℕ → Dict (ℕ × Text) ℕ → Groups (ℕ × Text) Tree → Type 0
Settled i seen groups =
    All
      (λ (g : ((ℕ × Text) × ℕ) × List (Option Tree)).
        ((g.0.1 < seen_of g.0.0 seen) ⊎ NonEmpty (take i g.1)) × NonEmpty (take (suc i) g.1))
      groups

take-NonEmpty :
    (i : ℕ) (slots : List (Option Tree)) → NonEmpty (take i slots) → NonEmpty (take (suc i) slots)
unfolding present
take-NonEmpty zero slots (a, rest, h) = absurd (no a rest h)
  where
    no : (a : Tree) (rest : List Tree) → ◌≡◌ {A = List Tree} [] (a ∷ rest) → ⊥
    no a rest h = cc
take-NonEmpty (suc i) [] h = h
take-NonEmpty (suc i) (none ∷ slots) h = take-NonEmpty i slots h
take-NonEmpty (suc i) (some b ∷ slots) h = (b, present (take (suc i) slots), refl)

pub take-set :
    (i : ℕ) (slots : List (Option Tree)) (t : Tree)
    → i < length slots
    → NonEmpty (take (suc i) (set slots i (some t)))
unfolding present
take-set i [] t h = absurd (omega arith)
take-set zero (s ∷ slots) t h = (t, [], refl)
take-set (suc i) (none ∷ slots) t h = take-set i slots t (omega arith)
take-set (suc i) (some b ∷ slots) t h = (b, present (take (suc i) (set slots i (some t))), refl)

-- A slot that is filled behind an object leaves the first object.
pub set-first :
    (i : ℕ) (slots : List (Option Tree)) (t : Tree) (names : List Text) (k : ℕ × Text)
    → NonEmpty (take i slots)
    → IsReady names k (present slots)
    → IsReady names k (present (set slots i (some t)))
unfolding present
set-first zero slots t names k (a, rest, h) r = absurd (no a rest h)
  where
    no : (a : Tree) (rest : List Tree) → ◌≡◌ {A = List Tree} [] (a ∷ rest) → ⊥
    no a rest h = cc
set-first (suc i) [] t names k h r = r
set-first (suc i) (none ∷ slots) t names k h r = set-first i slots t names k h r
set-first (suc i) (some b ∷ slots) t names k h r = r

pub set-alone :
    (len i : ℕ) (t : Tree) (names : List Text) (k : ℕ × Text)
    → check_cross k.0 names (obj_of t) ≡ ok tt
    → IsReady names k (present (set (replicate len none) i (some t)))
unfolding present
set-alone zero i t names k h = tt
set-alone (suc len) zero t names k h = h
set-alone (suc len) (suc i) t names k h = set-alone len i t names k h

seen_of-grows :
    (j k : ℕ × Text) (seen : Dict (ℕ × Text) ℕ)
    → seen_of k seen ≤ seen_of k (put j (suc (seen_of j seen)) seen)
seen_of-grows j k seen =
    rw (seen_of-put j k (suc (seen_of j seen)) seen) (elim (Bool-cases (pair_key.same j k)) [
      | inl same ↦
          rw same (omega (arith, ap (λ q. seen_of q seen) ((pair_key.same_iff j k).0 same)))
      | inr other ↦ rw other (omega arith)
    ])

seen_of_self : (j : ℕ × Text) (n : ℕ) (seen : Dict (ℕ × Text) ℕ) → seen_of j (put j n seen) ≡ n
seen_of_self j n seen =
    seen_of-put j j n seen
    ∙ ap (λ b. if b then n else seen_of j seen) ((pair_key.same_iff j j).1 refl)

seen-Settled :
    (i : ℕ) (seen : Dict (ℕ × Text) ℕ) (k : ℕ × Text) (groups : Groups (ℕ × Text) Tree)
    → Settled i seen groups
    → Settled i (put k (suc (seen_of k seen)) seen) groups
seen-Settled i seen k [] h = tt
seen-Settled i seen k (((j, m), old) ∷ groups) h =
    ((later h.0.0, h.0.1), seen-Settled i seen k groups h.1)
  where
    later :
        (m < seen_of j seen) ⊎ NonEmpty (take i old)
        → (m < seen_of j (put k (suc (seen_of k seen)) seen)) ⊎ NonEmpty (take i old)
    later (inl lt) = inl (omega (arith, lt, seen_of-grows k j seen))
    later (inr some_t) = inr some_t

pub put-Settled :
    (i : ℕ) (seen : Dict (ℕ × Text) ℕ) (k : ℕ × Text) (new : List (Option Tree))
    (groups : Groups (ℕ × Text) Tree)
    → Settled i seen groups
    → NonEmpty (take (suc i) new)
    → Settled i (put k (suc (seen_of k seen)) seen) (put (k, seen_of k seen) new groups)
unfolding put
put-Settled i seen k new [] h some_t =
    ((inl (omega (arith, seen_of_self k (suc (seen_of k seen)) seen)), some_t), tt)
put-Settled i seen k new (((j, m), old) ∷ groups) h some_t =
    let moved = seen-Settled i seen k (((j, m), old) ∷ groups) h in
    elim (Bool-cases (pair_key.same (j, m) (k, seen_of k seen))) [
      | inl same ↦
          let now =
            subst (λ (q : (ℕ × Text) × ℕ). q.1 < seen_of q.0 (put k (suc (seen_of k seen)) seen))
              (sym ((pair_key.same_iff (j, m) (k, seen_of k seen)).0 same))
              (omega (arith, seen_of_self k (suc (seen_of k seen)) seen)) in
          rw same ((inl now, some_t), moved.1)
      | inr other ↦ rw other (moved.0, put-Settled i seen k new groups h.1 some_t)
    ]

-- The group of the next occurrence has an object of an earlier source.
pub lookup-Settled :
    (i : ℕ) (seen : Dict (ℕ × Text) ℕ) (k : ℕ × Text) (old : List (Option Tree))
    (groups : Groups (ℕ × Text) Tree)
    → Settled i seen groups
    → lookup (k, seen_of k seen) groups ≡ some old
    → NonEmpty (take i old)
unfolding lookup
lookup-Settled i seen k old [] h e = cc
lookup-Settled i seen k old (((j, m), slots) ∷ groups) h e =
    elim (Bool-cases (pair_key.same (j, m) (k, seen_of k seen))) [
      | inl same ↦
          let here =
            subst (λ (q : (ℕ × Text) × ℕ). (q.1 < seen_of q.0 seen) ⊎ NonEmpty (take i slots))
              ((pair_key.same_iff (j, m) (k, seen_of k seen)).0 same) h.0.0 in
          found here (rw same at e)
      | inr other ↦ lookup-Settled i seen k old groups h.1 (rw other at e)
    ]
  where
    found :
        (seen_of k seen < seen_of k seen) ⊎ NonEmpty (take i slots)
        → some slots ≡ some old
        → NonEmpty (take i old)
    found (inl lt) q = absurd (omega (arith, lt))
    found (inr some_t) q = subst (λ o. NonEmpty (take i (slots_or zero o))) q some_t

pub next-Settled :
    (i : ℕ) (seen : Dict (ℕ × Text) ℕ) (groups : Groups (ℕ × Text) Tree)
    → Settled i seen groups
    → Settled (suc i) [] groups
next-Settled i seen [] h = tt
next-Settled i seen (((j, m), slots) ∷ groups) h =
    ((inr h.0.1, take-NonEmpty (suc i) slots h.0.1), next-Settled i seen groups h.1)
