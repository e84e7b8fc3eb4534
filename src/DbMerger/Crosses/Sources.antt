-- ===== src/DbMerger/Crosses/Sources.antt =====
-- db_merger.py: the loops of `_group` and the order of the groups, for crosses and their coverpoints.
use mathlib.Core.Path.{subst}
use covsight_core.Prelude.{
  ℕ, zero, suc, ◌+◌, ◌≤◌, ◌<◌, ◌≡◌, List, [], ◌∷◌, ◌++◌, Option, none, some, ok, length, length-set,
  set, All, true, false, not, ◌==◌, arith, refl, ap, sym, ◌∙◌, inl, inr, Bool-cases,
}
use covsight_core.Prelude.Keys.{nat_key, pair_key}
use covsight_core.Prelude.Text.{Text, text_key}
use covsight_core.Prelude.Dict.{Dict, lookup, put}
use covsight_core.DbMerger.{
  Groups, slots_or, add_source, add_sources, group, du_any, keep_groups, du_first, present, Tree,
  obj_of, scope_key, check_cross, type_cross, type_coverpoint, add_coverpoint,
}
use covsight_core.DbMerger.Group.{seen_of}
use covsight_core.DbMerger.Filled.{set-NonEmpty, Filled, slots-length, put-Filled}
use covsight_core.DbMerger.Crosses.{
  AreCrossesOk, IsReady, AreReady, coverpoints_of, Sub, check_cross-Sub, add_coverpoint-Sub,
  coverpoints_of-put, put-AreReady,
}
use covsight_core.DbMerger.Crosses.Settled.{
  Settled, take-set, set-first, set-alone, put-Settled, lookup-Settled, next-Settled,
}

-- The groups, while the objects of source `i` are gone through.
abbrev Going : ℕ → ℕ → List Text → Dict (ℕ × Text) ℕ → Groups (ℕ × Text) Tree → Type 0
Going len i names seen groups =
    Filled len groups
    × AreReady [] groups
    × Settled i seen groups
    × Sub names (coverpoints_of [] groups)

slots-IsReady :
    (len i : ℕ) (names : List Text) (seen : Dict (ℕ × Text) ℕ) (t : Tree)
    (groups : Groups (ℕ × Text) Tree) (slots : Option (List (Option Tree)))
    → slots ≡ lookup (scope_key t, seen_of (scope_key t) seen) groups
    → Going len i names seen groups
    → check_cross (obj_of t).scope_type names (obj_of t) ≡ ok tt
    → AreReady []
        (put (scope_key t, seen_of (scope_key t) seen) (set (slots_or len slots) i (some t)) groups)
slots-IsReady len i names seen t groups none at' (filled, ready, settled, more) checked =
    put-AreReady (scope_key t) (seen_of (scope_key t) seen) _ [] groups ready
      (λ e. set-alone len i t _ (scope_key t) (check_cross-Sub _ names _ (obj_of t) more checked))
      (λ old ns e. absurd (no old (at' ∙ e)))
  where
    no : (old : List (Option Tree)) → ◌≡◌ {A = Option (List (Option Tree))} none (some old) → ⊥
    no old e = cc
slots-IsReady len i names seen t groups (some old) at' (filled, ready, settled, more) checked =
    put-AreReady (scope_key t) (seen_of (scope_key t) seen) _ [] groups ready
      (λ e. absurd (no (at' ∙ e)))
      (λ o ns e r.
        set-first i old t ns (scope_key t)
          (lookup-Settled i seen (scope_key t) old groups settled (sym at'))
          (subst (λ s. IsReady ns (scope_key t) (present (slots_or zero s))) (sym (at' ∙ e)) r))
  where
    no : ◌≡◌ {A = Option (List (Option Tree))} (some old) none → ⊥
    no e = cc

add_source-AreReady :
    (len i : ℕ) (objs : List Tree) (names : List Text) (seen : Dict (ℕ × Text) ℕ)
    (groups : Groups (ℕ × Text) Tree)
    → i < len
    → AreCrossesOk names objs
    → Going len i names seen groups
    → Going len (suc i) [] [] (add_source scope_key len i objs seen groups)
unfolding add_source
add_source-AreReady len i [] names seen groups lt fine (filled, ready, settled, more) =
    (filled, ready, next-Settled i seen groups settled, λ x e. absurd (no e))
  where
    no : false ≡ true → ⊥
    no e = cc
add_source-AreReady len i (t ∷ objs) names seen groups lt fine (filled, ready, settled, more) =
    let k = scope_key t in
    let n = seen_of k seen in
    let slots = slots_or len (lookup (k, n) groups) in
    let size = slots-length len (k, n) groups filled in
    add_source-AreReady len i objs (add_coverpoint k.0 k.1 names) (put k (suc n) seen)
      (put (k, n) (set slots i (some t)) groups) lt fine.1
      (
        put-Filled len (k, n) (set slots i (some t)) groups filled
            (length-set slots i (some t) ∙ size) (set-NonEmpty slots i t (omega (arith, size, lt))),
        slots-IsReady len i names seen t groups (lookup (k, n) groups) refl
            (filled, ready, settled, more) fine.0,
        put-Settled i seen k (set slots i (some t)) groups settled
            (take-set i slots t (omega (arith, size, lt))),
        λ x e.
            coverpoints_of-put k n (set slots i (some t)) [] groups x
              (add_coverpoint-Sub k.0 k.1 names (coverpoints_of [] groups) more x e),
      )

add_sources-AreReady :
    (len i : ℕ) (sources : List (List Tree)) (groups : Groups (ℕ × Text) Tree)
    → i + length sources ≤ len
    → All (AreCrossesOk []) sources
    → Going len i [] [] groups
    → AreReady [] (add_sources scope_key len i sources groups)
unfolding add_sources
add_sources-AreReady len i [] groups le fine going = going.1
add_sources-AreReady len i (objs ∷ sources) groups le fine going =
    add_sources-AreReady len (suc i) sources _ (omega arith) fine.1
      (add_source-AreReady len i objs [] [] groups (omega arith) fine.0 going)

group-AreReady :
    (sources : List (List Tree))
    → All (AreCrossesOk []) sources
    → AreReady [] (group scope_key sources)
unfolding group coverpoints_of
group-AreReady sources fine =
    add_sources-AreReady (length sources) 0 sources [] (omega arith) fine (tt, tt, tt, λ x e. e)

-- A design unit is neither a cross nor a coverpoint.
du_any-plain :
    (k : ℕ) → du_any k ≡ true → ((k == type_cross) ≡ false) × ((k == type_coverpoint) ≡ false)
unfolding du_any
du_any-plain k h = (apart type_cross refl, apart type_coverpoint refl)
  where
    clash : true ≡ false → ⊥
    clash e = cc

    apart : (t : ℕ) → du_any t ≡ false → (k == t) ≡ false
    apart t plain = elim (Bool-cases (k == t)) [
      | inl same ↦ absurd (clash (sym h ∙ ap du_any ((nat_key.same_iff k t).0 same) ∙ plain))
      | inr other ↦ other
    ]

not_du-AreReady :
    (names : List Text) (groups : Groups (ℕ × Text) Tree)
    → AreReady names groups
    → AreReady names (keep_groups (λ t. not (du_any t)) groups)
unfolding keep_groups add_coverpoint
not_du-AreReady names [] h = tt
not_du-AreReady names (((k, n), slots) ∷ groups) h = elim (Bool-cases (du_any k.0)) [
  | inl du ↦
      let rest = not_du-AreReady names groups (rw (du_any-plain k.0 du).1 at h.1) in rw du rest
  | inr other ↦ rw other (h.0, not_du-AreReady (add_coverpoint k.0 k.1 names) groups h.1)
]

du-AreReady :
    (names : List Text) (groups rest : Groups (ℕ × Text) Tree)
    → AreReady names rest
    → AreReady names (keep_groups du_any groups ++ rest)
unfolding keep_groups add_coverpoint check_cross
du-AreReady names [] rest h = h
du-AreReady names (((k, n), slots) ∷ groups) rest h = elim (Bool-cases (du_any k.0)) [
  | inl du ↦ rw du (
    ready (present slots) (du_any-plain k.0 du).0,
    rw (du_any-plain k.0 du).1 (du-AreReady names groups rest h),
  )
  | inr other ↦ rw other (du-AreReady names groups rest h)
]
  where
    ready : (ts : List Tree) → (k.0 == type_cross) ≡ false → IsReady names k ts
    ready [] e = tt
    ready (t ∷ ts) e = rw e refl

-- When each source has the coverpoints before the crosses of them, so have the merged groups, design
-- units first.
pub du_first-AreReady :
    (sources : List (List Tree))
    → All (AreCrossesOk []) sources
    → AreReady [] (du_first (group scope_key sources))
unfolding du_first
du_first-AreReady sources fine =
    du-AreReady [] (group scope_key sources) _
      (not_du-AreReady [] (group scope_key sources) (group-AreReady sources fine))
