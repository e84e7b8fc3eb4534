-- ===== src/DbMerger/Crosses.antt =====
-- db_merger.py: crosses that come after their coverpoints, in a list of scopes and in groups of them.
pub mod Settled
pub mod Sources
use mathlib.Core.Path.{subst}
use covsight_core.Prelude.{
  ℕ, zero, suc, ◌+◌, ◌≤◌, ◌<◌, ◌≡◌, ◌⊎◌, List, [], ◌∷◌, ◌++◌, Option, none, some, ok, Result, ◌>>◌,
  guard, exception, length, length-set, take, set, replicate, All, Bool, true, false, not, ◌&&◌,
  all, any, ◌==◌, if◌then◌else◌, arith, refl, ap, sym, ◌∙◌, inl, inr, Bool-cases,
}
use covsight_core.Prelude.Keys.{nat_key, pair_key}
use covsight_core.Prelude.Text.{Text, text_key, text_same}
use covsight_core.Prelude.Dict.{Dict, lookup, put}
use covsight_core.DbMerger.{
  Groups, slots_or, add_source, add_sources, group, du_any, keep_groups, du_first, present,
  ScopeObj, Tree, obj_of, scope_key, check_points, check_cross, type_cross, type_coverpoint,
  add_coverpoint,
}
use covsight_core.DbMerger.Group.{seen_of, seen_of-put}
use covsight_core.DbMerger.Filled.{NonEmpty, set-NonEmpty, Filled, slots-length, put-Filled}

-- The crosses of a list of scopes come after the coverpoints that they cross.
abbrev pub AreCrossesOk : List Text → List Tree → Type 0
AreCrossesOk names [] = Unit
AreCrossesOk names (t ∷ ts) =
    (check_cross (obj_of t).scope_type names (obj_of t) ≡ ok tt)
    × AreCrossesOk (add_coverpoint (obj_of t).scope_type (obj_of t).name names) ts

-- The first object of a group can be created when its parent has these coverpoints.
abbrev pub IsReady : List Text → ℕ × Text → List Tree → Type 0
IsReady names k [] = Unit
IsReady names k (t ∷ ts) = check_cross k.0 names (obj_of t) ≡ ok tt

abbrev pub AreReady : List Text → Groups (ℕ × Text) Tree → Type 0
AreReady names [] = Unit
AreReady names (((k, n), slots) ∷ groups) =
    IsReady names k (present slots) × AreReady (add_coverpoint k.0 k.1 names) groups

unfoldable pub coverpoints_of : List Text → Groups (ℕ × Text) Tree → List Text
coverpoints_of names [] = names
coverpoints_of names (((k, n), slots) ∷ groups) =
    coverpoints_of (add_coverpoint k.0 k.1 names) groups

abbrev pub Sub : List Text → List Text → Type 0
Sub names more = (s : Text) → any (text_same s) names ≡ true → any (text_same s) more ≡ true

check_points-Sub :
    (crossed : List (Option Text)) (names more : List Text)
    → Sub names more
    → check_points names crossed ≡ ok tt
    → check_points more crossed ≡ ok tt
unfolding check_points
check_points-Sub [] names more h e = refl
check_points-Sub (none ∷ crossed) names more h e = cc
check_points-Sub (some cp ∷ crossed) names more h e = elim (Bool-cases (any (text_same cp) names)) [
  | inl here ↦ rw (h cp here) (check_points-Sub crossed names more h (rw here at e))
  | inr missing ↦ absurd (no (check_points names crossed) (rw missing at e))
]
  where
    no : (rest : Result (Unit {0})) → (guard false exception >> rest) ≡ ok tt → ⊥
    no rest q = cc

pub check_cross-Sub :
    (k : ℕ) (names more : List Text) (obj : ScopeObj)
    → Sub names more
    → check_cross k names obj ≡ ok tt
    → check_cross k more obj ≡ ok tt
unfolding check_cross
check_cross-Sub k names more obj h e = elim (Bool-cases (k == type_cross)) [
  | inl cross ↦ rw cross (check_points-Sub obj.crossed names more h (rw cross at e))
  | inr other ↦ rw other refl
]

pub add_coverpoint-Sub :
    (k : ℕ) (s : Text) (names more : List Text)
    → Sub names more
    → Sub (add_coverpoint k s names) (add_coverpoint k s more)
unfolding add_coverpoint
add_coverpoint-Sub k s names more h x e = ground (arith, h x)

add_coverpoint-more : (k : ℕ) (s : Text) (names : List Text) → Sub names (add_coverpoint k s names)
unfolding add_coverpoint
add_coverpoint-more k s names x e = ground arith

coverpoints_of-more :
    (names : List Text) (groups : Groups (ℕ × Text) Tree) → Sub names (coverpoints_of names groups)
unfolding coverpoints_of
coverpoints_of-more names [] x e = e
coverpoints_of-more names (((k, n), slots) ∷ groups) x e =
    coverpoints_of-more (add_coverpoint k.0 k.1 names) groups x
      (add_coverpoint-more k.0 k.1 names x e)

add_coverpoint-again :
    (k : ℕ) (s : Text) (names more : List Text)
    → Sub (add_coverpoint k s names) more
    → Sub (add_coverpoint k s more) more
unfolding add_coverpoint
add_coverpoint-again k s names more h x e = ground (arith, h x)

pub coverpoints_of-put :
    (k : ℕ × Text) (n : ℕ) (new : List (Option Tree)) (names : List Text)
    (groups : Groups (ℕ × Text) Tree)
    → Sub
        (add_coverpoint k.0 k.1 (coverpoints_of names groups))
        (coverpoints_of names (put (k, n) new groups))
unfolding coverpoints_of put
coverpoints_of-put k n new names [] x e = e
coverpoints_of-put k n new names (((j, m), old) ∷ groups) x e =
    elim (Bool-cases (pair_key.same (j, m) (k, n))) [
      | inl same ↦
          let kj = ap (λ (q : (ℕ × Text) × ℕ). q.0) ((pair_key.same_iff (j, m) (k, n)).0 same) in
          let later = coverpoints_of (add_coverpoint j.0 j.1 names) groups in
          rw same (
            add_coverpoint-again j.0 j.1 names later
              (coverpoints_of-more (add_coverpoint j.0 j.1 names) groups) x
              (subst (λ (q : ℕ × Text). any (text_same x) (add_coverpoint q.0 q.1 later) ≡ true)
                (sym kj) e))
      | inr other ↦ rw other (coverpoints_of-put k n new (add_coverpoint j.0 j.1 names) groups x e)
    ]

pub put-AreReady :
    (k : ℕ × Text) (n : ℕ) (new : List (Option Tree)) (names : List Text)
    (groups : Groups (ℕ × Text) Tree)
    → AreReady names groups
    → (lookup (k, n) groups ≡ none → IsReady (coverpoints_of names groups) k (present new))
    → ((old : List (Option Tree)) (ns : List Text)
        → lookup (k, n) groups ≡ some old
        → IsReady ns k (present old)
        → IsReady ns k (present new))
    → AreReady names (put (k, n) new groups)
unfolding put coverpoints_of lookup
put-AreReady k n new names [] h fresh update = (fresh refl, tt)
put-AreReady k n new names (((j, m), old) ∷ groups) h fresh update =
    elim (Bool-cases (pair_key.same (j, m) (k, n))) [
      | inl same ↦
          let kj = ap (λ (q : (ℕ × Text) × ℕ). q.0) ((pair_key.same_iff (j, m) (k, n)).0 same) in
          let hit = ap (λ b. if b then some old else lookup (k, n) groups) same in
          rw same (
            subst (λ q. IsReady names q (present new)) (sym kj)
                (update old names hit (subst (λ q. IsReady names q (present old)) kj h.0)),
            h.1,
          )
      | inr other ↦
          let miss = ap (λ b. if b then some old else lookup (k, n) groups) other in
          rw other (
            h.0,
            put-AreReady k n new (add_coverpoint j.0 j.1 names) groups h.1 (λ e. fresh (miss ∙ e))
                (λ o ns e. update o ns (miss ∙ e)),
          )
    ]
