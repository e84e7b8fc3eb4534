-- ===== src/StringTable/Interning.antt =====
-- Each string has one index, and keeps it.
use mathlib.Core.Option.{some-injective}
use covsight_core.Prelude.{
  ℕ, zero, suc, ◌<◌, ◌≡◌, ◌⊎◌, List, [], ◌∷◌, ◌++◌, Option, none, some, length, get_elem?, arith,
  refl, ap, sym, ◌∙◌, inl, inr, Option-cases, Bool-cases,
}
use covsight_core.Prelude.Text.{Text, text_same, text_same_iff, text_key}
use covsight_core.Prelude.Dict.{lookup, put, lookup-put}
use covsight_core.StringTable.{StringTable, text_of, add}

-- The dictionary names exactly the positions of the strings.
pub record IsTable (t : StringTable) : Type 0 where
  pub sound : (s : Text) (i : ℕ) → lookup s t.index ≡ some i → get_elem? t.strings i ≡ some s
  pub complete : (s : Text) (i : ℕ) → get_elem? t.strings i ≡ some s → lookup s t.index ≡ some i

pub get_elem?-append :
    (xs ys : List Text) (i : ℕ) (s : Text)
    → get_elem? xs i ≡ some s
    → get_elem? (xs ++ ys) i ≡ some s
get_elem?-append [] ys i s h = cc
get_elem?-append (x ∷ xs) ys zero s h = h
get_elem?-append (x ∷ xs) ys (suc i) s h = get_elem?-append xs ys i s h

pub get_elem?-length :
    (xs ys : List Text) (s : Text) → get_elem? (xs ++ s ∷ ys) (length xs) ≡ some s
get_elem?-length [] ys s = refl
get_elem?-length (x ∷ xs) ys s = get_elem?-length xs ys s

pub get_elem?-lt : (xs : List Text) (i : ℕ) (s : Text) → get_elem? xs i ≡ some s → i < length xs
get_elem?-lt [] i s h = cc
get_elem?-lt (x ∷ xs) zero s h = omega arith
get_elem?-lt (x ∷ xs) (suc i) s h = omega (arith, get_elem?-lt xs i s h)

last_or_before :
    (xs : List Text) (i : ℕ) (x s : Text)
    → get_elem? (xs ++ x ∷ []) i ≡ some s
    → (get_elem? xs i ≡ some s) ⊎ ((i ≡ length xs) × (x ≡ s))
last_or_before [] zero x s h = inr (refl, some-injective x s h)
last_or_before [] (suc i) x s h = cc
last_or_before (y ∷ xs) zero x s h = inl h
last_or_before (y ∷ xs) (suc i) x s h = elim (last_or_before xs i x s h) [
  | inl before ↦ inl before
  | inr (at, same) ↦ inr (ap suc at, same)
]

-- A table with one more string, which it did not hold.
abbrev pub extended : Text → StringTable → StringTable
extended s t = record { strings = t.strings ++ s ∷ []; index = put s (length t.strings) t.index }

extended-IsTable :
    (s : Text) (t : StringTable) → lookup s t.index ≡ none → IsTable t → IsTable (extended s t)
extended-IsTable s t fresh h = record {
  sound = λ x i e. elim (Bool-cases (text_same s x)) [
    | inl same ↦
        let p = (text_same_iff s x).0 same in
        let q =
          some-injective (length t.strings) i
            (rw (lookup-put s x (length t.strings) t.index, same) at e) in
        cc (p, q, get_elem?-length t.strings [] s)
    | inr other ↦
        get_elem?-append t.strings (s ∷ []) i x
          (h.sound x i (rw (lookup-put s x (length t.strings) t.index, other) at e))
  ];
  complete = λ x i e. elim (last_or_before t.strings i s x e) [
    | inl before ↦ elim (Bool-cases (text_same s x)) [
      | inl same ↦ absurd (
          none≢some i (
            sym fresh
            ∙ ap (λ (y : Text). lookup y t.index) ((text_same_iff s x).0 same)
            ∙ h.complete x i before))
      | inr other ↦ rw (lookup-put s x (length t.strings) t.index, other) (h.complete x i before)
    ]
    | inr (at, same) ↦
        rw (lookup-put s x (length t.strings) t.index, (text_same_iff s x).1 same)
          (ap some (sym at))
  ];
}
  where
    none≢some : (i : ℕ) → ¬ (◌≡◌ {A = Option ℕ} none (some i))
    none≢some i p = cc

pub add-found :
    (s : Option Text) (t : StringTable) (i : ℕ)
    → lookup (text_of s) t.index ≡ some i
    → add s t ≡ (i, t)
unfolding add
add-found s t i found = rw (found, add)

pub add-fresh :
    (s : Option Text) (t : StringTable)
    → lookup (text_of s) t.index ≡ none
    → add s t ≡ (length t.strings, extended (text_of s) t)
unfolding add
add-fresh s t fresh = rw (fresh, add)

-- Adding a string to a table whose dictionary names its positions gives a table of that kind, in
-- which the returned index is the string's, every string keeps the index that it had, and adding the
-- string again returns the same index and changes nothing.
pub add-IsTable :
    (s : Option Text) (t : StringTable)
    → IsTable t
    → IsTable (add s t).1
      × (get_elem? (add s t).1.strings (add s t).0 ≡ some (text_of s))
      × ((i : ℕ) (x : Text)
          → get_elem? t.strings i ≡ some x
          → get_elem? (add s t).1.strings i ≡ some x)
      × (add s (add s t).1 ≡ add s t)
add-IsTable s t h = elim (Option-cases (lookup (text_of s) t.index)) [
  | inr (i, found) ↦
      rw (add-found s t i found)
        (h, h.sound (text_of s) i found, (λ j x e. e), add-found s t i found)
  | inl fresh ↦ rw (add-fresh s t fresh) (
    extended-IsTable (text_of s) t fresh h,
    get_elem?-length t.strings [] (text_of s),
    (λ j x e. get_elem?-append t.strings (text_of s ∷ []) j x e),
    add-found s (extended (text_of s) t) (length t.strings) (
        rw
          (
            lookup-put (text_of s) (text_of s) (length t.strings) t.index,
            (text_same_iff (text_of s) (text_of s)).1 refl,
          )
          refl),
  )
]
