-- ===== src/DbMerger/Entries.antt =====
-- db_merger.py: the objects of a group have its key, and what a loop over the groups makes of them.
use mathlib.Core.Path.{subst}
use covsight_core.Prelude.{
  ℕ, zero, suc, ◌≡◌, List, [], ◌∷◌, Option, none, some, length, replicate, set, map, All, get_elem?,
  arith, ap, sym, ◌∙◌, inl, inr, Bool-cases,
}
use covsight_core.Prelude.Keys.{Key, nat_key, pair_key}
use covsight_core.Prelude.Dict.{Dict, lookup, put}
use covsight_core.DbMerger.{Groups, slots_or, add_source, add_sources, group, present}
use covsight_core.DbMerger.Group.{nth, group-slots}
use covsight_core.DbMerger.Rows.{rows, lookup-rows, lookup-Dense, group-Dense}

-- What holds of an object, where a slot has one.
abbrev pub InSlot {ℓ κ} : {A : Type ℓ} → (A → Type κ) → Option A → Type κ
InSlot P none = Unit
InSlot P (some a) = P a

set-InSlot {ℓ κ} :
    {A : Type ℓ} (P : A → Type κ) (slots : List (Option A)) (i : ℕ) (a : A)
    → All (InSlot P) slots
    → P a
    → All (InSlot P) (set slots i (some a))
set-InSlot P [] i a h p = tt
set-InSlot P (s ∷ slots) zero a h p = (p, h.1)
set-InSlot P (s ∷ slots) (suc i) a h p = (h.0, set-InSlot P slots i a h.1 p)

replicate-InSlot {ℓ κ} : {A : Type ℓ} (P : A → Type κ) (n : ℕ) → All (InSlot P) (replicate n none)
replicate-InSlot P zero = tt
replicate-InSlot P (suc n) = (tt, replicate-InSlot P n)

pub present-All {ℓ κ} :
    {A : Type ℓ} (P : A → Type κ) (slots : List (Option A))
    → All (InSlot P) slots
    → All P (present slots)
unfolding present
present-All P [] h = tt
present-All P (none ∷ slots) h = present-All P slots h.1
present-All P (some a ∷ slots) h = (h.0, present-All P slots h.1)

module _ {ℓ κ} {K : Type ℓ} {A : Type κ} ⦃e : Key K⦄ where
  -- What holds of the objects of each group, with the key of the group.
  abbrev pub Entries {μ} : (K → A → Type μ) → Groups K A → Type μ
  Entries P groups = All (λ (g : (K × ℕ) × List (Option A)). All (InSlot (P g.0.0)) g.1) groups

  put-Entries {μ} :
      (P : K → A → Type μ) (k : K) (n : ℕ) (slots : List (Option A)) (groups : Groups K A)
      → Entries P groups
      → All (InSlot (P k)) slots
      → Entries P (put (k, n) slots groups)
  unfolding put
  put-Entries P k n slots [] h p = (p, tt)
  put-Entries P k n slots (((j, m), old) ∷ groups) h p =
      elim (Bool-cases (pair_key.same (j, m) (k, n))) [
        | inl same ↦ rw same (
          subst (λ i. All (InSlot (P i)) slots)
              (sym (ap (λ (q : K × ℕ). q.0) ((pair_key.same_iff (j, m) (k, n)).0 same))) p,
          h.1,
        )
        | inr other ↦ rw other (h.0, put-Entries P k n slots groups h.1 p)
      ]

  slots-InSlot {μ} :
      (P : K → A → Type μ) (len : ℕ) (k : K) (n : ℕ) (groups : Groups K A)
      → Entries P groups
      → All (InSlot (P k)) (slots_or len (lookup (k, n) groups))
  unfolding lookup
  slots-InSlot P len k n [] h = replicate-InSlot (P k) len
  slots-InSlot P len k n (((j, m), slots) ∷ groups) h =
      elim (Bool-cases (pair_key.same (j, m) (k, n))) [
        | inl same ↦ rw same (
            subst (λ i. All (InSlot (P i)) slots)
              (ap (λ (q : K × ℕ). q.0) ((pair_key.same_iff (j, m) (k, n)).0 same)) h.0)
        | inr other ↦ rw other (slots-InSlot P len k n groups h.1)
      ]

module _ {ℓ κ μ} {K : Type ℓ} {A : Type κ} ⦃e : Key K⦄ (key : A → K) (P : K → A → Type μ) where
  add_source-Entries :
      (len i : ℕ) (objs : List A) (seen : Dict K ℕ) (groups : Groups K A)
      → All (λ a. P (key a) a) objs
      → Entries P groups
      → Entries P (add_source key len i objs seen groups)
  unfolding add_source
  add_source-Entries len i [] seen groups h g = g
  add_source-Entries len i (a ∷ objs) seen groups h g = add_source-Entries len i objs _ _ h.1 (
      put-Entries P (key a) _ _ groups g
        (set-InSlot (P (key a)) _ i a (slots-InSlot P len (key a) _ groups g) h.0))

  add_sources-Entries :
      (len i : ℕ) (sources : List (List A)) (groups : Groups K A)
      → All (All (λ a. P (key a) a)) sources
      → Entries P groups
      → Entries P (add_sources key len i sources groups)
  unfolding add_sources
  add_sources-Entries len i [] groups h g = g
  add_sources-Entries len i (objs ∷ sources) groups h g =
      add_sources-Entries len (suc i) sources _ h.1 (add_source-Entries len i objs [] groups h.0 g)

  -- What holds of every object of the sources with its own key holds in the groups.
  pub group-Entries :
      (sources : List (List A))
      → All (All (λ a. P (key a) a)) sources
      → Entries P (group key sources)
  unfolding group
  group-Entries sources h = add_sources-Entries (length sources) 0 sources [] h tt

module _ {K A D : Type 0} ⦃e : Key K⦄ (key : D → K) (Made : K → List (Option A) → D → Type 0) where
  -- Each group is made into an object with its key.
  abbrev pub Built : Groups K A → List D → Type 0
  Built [] [] = Unit
  Built [] (d ∷ ds) = ⊥
  Built (g ∷ groups) [] = ⊥
  Built (((k, n), slots) ∷ groups) (d ∷ ds) = (key d ≡ k) × Made k slots d × Built groups ds

  -- A group and what was made of it.
  abbrev pub MadeOf : K → Option (List (Option A)) → Option D → Type 0
  MadeOf k none none = Unit
  MadeOf k none (some d) = ⊥
  MadeOf k (some slots) none = ⊥
  MadeOf k (some slots) (some d) = Made k slots d

  pub nth-Built :
      (groups : Groups K A) (ds : List D)
      → Built groups ds
      → (k : K) (m : ℕ)
      → MadeOf k
          (get_elem? (map (λ (g : ℕ × List (Option A)). g.1) (rows k groups)) m)
          (nth key k m ds)
  unfolding rows nth
  nth-Built [] [] h k m = tt
  nth-Built [] (d ∷ ds) h k m = absurd h
  nth-Built (g ∷ groups) [] h k m = absurd h
  nth-Built (((j, n), slots) ∷ groups) (d ∷ ds) (keyed, made, more) k zero =
      elim (Bool-cases (e.same j k)) [
        | inl same ↦ rw (keyed, same) (subst (λ i. Made i slots d) ((e.same_iff j k).0 same) made)
        | inr other ↦ rw (keyed, other) (nth-Built groups ds more k zero)
      ]
  nth-Built (((j, n), slots) ∷ groups) (d ∷ ds) (keyed, made, more) k (suc m) =
      elim (Bool-cases (e.same j k)) [
        | inl same ↦ rw (keyed, same) (nth-Built groups ds more k m)
        | inr other ↦ rw (keyed, other) (nth-Built groups ds more k (suc m))
      ]

  -- What was made of the group of an occurrence, where the groups of its key are those of `_group`.
  pub group-MadeOf :
      (origin : A → K) (sources : List (List A)) (groups : Groups K A) (ds : List D)
      → ((k : K) → rows k groups ≡ rows k (group origin sources))
      → Built groups ds
      → (k : K) (m : ℕ)
      → (v : Option (List (Option A))) × (slots_or (length sources) v
          ≡ map (nth origin k m) sources)
        × MadeOf k v (nth key k m ds)
  group-MadeOf origin sources groups ds same h k m =
      let dense =
        lookup-Dense 0 m m (rows k (group origin sources)) (group-Dense origin sources k)
          (omega arith) in
      let values = ap (λ r. get_elem? (map (λ (g : ℕ × List (Option A)). g.1) r) m) (same k) in
      (
        get_elem? (map (λ (g : ℕ × List (Option A)). g.1) (rows k groups)) m,
        ap (slots_or (length sources))
              (values ∙ sym dense ∙ sym (lookup-rows k m (group origin sources)))
            ∙ group-slots origin sources k m,
        nth-Built groups ds h k m,
      )
