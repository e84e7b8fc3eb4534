-- ===== src/Multirun/Table.antt =====
-- The run table: lookups under updates, and totals over its entries.
use covsight_core.Prelude.{
  ℕ, ◌+◌, max, ◌≡◌, ◌≢◌, List, [], ◌∷◌, map, Bool, true, false, some, arith, refl, All, ap, ◌∙◌,
  sym, Bool-cases, inl, inr,
}
use mathlib.Core.Path.{subst}
use mathlib.Core.Bool.{false≢true}
use mathlib.Core.Option.{some-injective}
use covsight_core.Prelude.Text.{Text, text_same, text_same_iff}
use covsight_core.Multirun.{RunEntry, RunTable, get, remove}

-- `+` or the maximum, both with unit 0.
unfoldable pub combine : Bool → ℕ → ℕ → ℕ
combine true a b = max a b
combine false a b = a + b

pub combine-zero : (b : Bool) (m : ℕ) → combine b m 0 ≡ m
unfolding combine
combine-zero true m = omega arith
combine-zero false m = omega arith

pub zero-combine : (b : Bool) (m : ℕ) → combine b 0 m ≡ m
unfolding combine
zero-combine true m = omega arith
zero-combine false m = omega arith

pub combine_assoc :
    (b : Bool) (x y z : ℕ) → combine b (combine b x y) z ≡ combine b x (combine b y z)
unfolding combine
combine_assoc true x y z = omega arith
combine_assoc false x y z = omega arith

pub combine_left_comm :
    (b : Bool) (x y z : ℕ) → combine b x (combine b y z) ≡ combine b y (combine b x z)
unfolding combine
combine_left_comm true x y z = omega arith
combine_left_comm false x y z = omega arith

-- The total of a weight over a list.
module _ {A : Type 0} (b : Bool) where
  unfoldable pub total : (A → ℕ) → List A → ℕ
  total w [] = 0
  total w (e ∷ t) = combine b (w e) (total w t)

  pub total-cong : (w v : A → ℕ) (t : List A) → All (λ e. w e ≡ v e) t → total w t ≡ total v t
  unfolding total
  total-cong w v [] h = refl
  total-cong w v (e ∷ t) h = cc (h.0, total-cong w v t h.1)

pub total-map :
    {A B : Type 0} (b : Bool) (f : B → A) (w : A → ℕ) (t : List B)
    → total b w (map f t) ≡ total b (λ e. w (f e)) t
unfolding total
total-map b f w [] = refl
total-map b f w (e ∷ t) = ap (combine b (w (f e))) (total-map b f w t)

same_refl : (a : Text) → text_same a a ≡ true
same_refl a = (text_same_iff a a).1 refl

pub get-remove_ne : (t : RunTable) (r s : Text) → r ≢ s → get (remove r t) s ≡ get t s
unfolding get remove
get-remove_ne [] r s h = refl
get-remove_ne (e ∷ t) r s h =
    ground (arith, text_same_iff e.run_id r, text_same_iff e.run_id s, get-remove_ne t r s h)

-- No two entries share a run id; no two share a member.
abbrev pub DistinctIds : RunTable → Type 0
DistinctIds [] = Unit
DistinctIds (e ∷ t) = All (λ f. e.run_id ≢ f.run_id) t × DistinctIds t

abbrev pub DistinctMembers : RunTable → Type 0
DistinctMembers [] = Unit
DistinctMembers (e ∷ t) = All (λ f. e.member ≢ f.member) t × DistinctMembers t

module _ (P : RunEntry → Type 0) where
  pub All-remove : (r : Text) (t : RunTable) → All P t → All P (remove r t)
  unfolding remove
  All-remove r [] h = tt
  All-remove r (e ∷ t) h = elim (Bool-cases (text_same e.run_id r)) [
    | inl same ↦ rw same h.1
    | inr other ↦ rw other (h.0, All-remove r t h.1)
  ]

  pub All-get : (r : Text) (t : RunTable) (e : RunEntry) → get t r ≡ some e → All P t → P e
  unfolding get
  All-get r [] e g h = cc
  All-get r (f ∷ t) e g h = elim (Bool-cases (text_same f.run_id r)) [
    | inl same ↦ subst P (some-injective f e (rw same at g)) h.0
    | inr other ↦ All-get r t e (rw other at g) h.1
  ]

pub get-run_id : (t : RunTable) (r : Text) (e : RunEntry) → get t r ≡ some e → e.run_id ≡ r
unfolding get
get-run_id [] r e g = cc
get-run_id (f ∷ t) r e g = elim (Bool-cases (text_same f.run_id r)) [
  | inl same ↦
      ap (λ (x : RunEntry). x.run_id) (sym (some-injective f e (rw same at g)))
      ∙ (text_same_iff f.run_id r).0 same
  | inr other ↦ get-run_id t r e (rw other at g)
]

-- Taking a run out of the table takes its weight out of the total.
pub total-remove :
    (b : Bool) (w : RunEntry → ℕ) (t : RunTable) (r : Text) (e : RunEntry)
    → get t r ≡ some e
    → total b w t ≡ combine b (w e) (total b w (remove r t))
unfolding total get remove
total-remove b w [] r e g = cc
total-remove b w (f ∷ t) r e g = elim (Bool-cases (text_same f.run_id r)) [
  | inl same ↦
      rw same
        (ap (λ (x : RunEntry). combine b (w x) (total b w t)) (some-injective f e (rw same at g)))
  | inr other ↦ rw other (
      ap (combine b (w f)) (total-remove b w t r e (rw other at g))
      ∙ combine_left_comm b (w f) (w e) (total b w (remove r t)))
]

pub DistinctIds-remove : (r : Text) (t : RunTable) → DistinctIds t → DistinctIds (remove r t)
unfolding remove
DistinctIds-remove r [] h = tt
DistinctIds-remove r (e ∷ t) h = elim (Bool-cases (text_same e.run_id r)) [
  | inl same ↦ rw same h.1
  | inr other ↦ rw other (All-remove (λ f. e.run_id ≢ f.run_id) r t h.0, DistinctIds-remove r t h.1)
]

pub DistinctMembers-remove :
    (r : Text) (t : RunTable) → DistinctMembers t → DistinctMembers (remove r t)
unfolding remove
DistinctMembers-remove r [] h = tt
DistinctMembers-remove r (e ∷ t) h = elim (Bool-cases (text_same e.run_id r)) [
  | inl same ↦ rw same h.1
  | inr other ↦
      rw other (All-remove (λ f. e.member ≢ f.member) r t h.0, DistinctMembers-remove r t h.1)
]

-- What is left after a run is taken out does not name the run, nor its member.
pub remove-other_ids :
    (r : Text) (t : RunTable) → DistinctIds t → All (λ f. f.run_id ≢ r) (remove r t)
unfolding remove
remove-other_ids r [] h = tt
remove-other_ids r (e ∷ t) h = elim (Bool-cases (text_same e.run_id r)) [
  | inl same ↦ rw same (others r e t ((text_same_iff e.run_id r).0 same) h.0)
  | inr other ↦
      rw other
        ((λ p. false≢true (sym other ∙ (text_same_iff e.run_id r).1 p)), remove-other_ids r t h.1)
]
  where
    others :
        (r : Text) (e : RunEntry) (t : RunTable)
        → e.run_id ≡ r
        → All (λ f. e.run_id ≢ f.run_id) t
        → All (λ f. f.run_id ≢ r) t
    others r e [] p h = tt
    others r e (f ∷ t) p h = ((λ q. h.0 (p ∙ sym q)), others r e t p h.1)

pub remove-other_members :
    (r : Text) (t : RunTable) (e : RunEntry)
    → get t r ≡ some e
    → DistinctMembers t
    → All (λ f. f.member ≢ e.member) (remove r t)
unfolding get remove
remove-other_members r [] e g h = cc
remove-other_members r (f ∷ t) e g h = elim (Bool-cases (text_same f.run_id r)) [
  | inl same ↦ rw same (others f e t (some-injective f e (rw same at g)) h.0)
  | inr other ↦ rw other (
    All-get (λ x. f.member ≢ x.member) r t e (rw other at g) h.0,
    remove-other_members r t e (rw other at g) h.1,
  )
]
  where
    others :
        (f e : RunEntry) (t : RunTable)
        → f ≡ e
        → All (λ x. f.member ≢ x.member) t
        → All (λ x. x.member ≢ e.member) t
    others f e [] p h = tt
    others f e (x ∷ t) p h =
        ((λ q. h.0 (ap (λ (y : RunEntry). y.member) p ∙ sym q)), others f e t p h.1)

get-skip :
    (e f : RunEntry) (t : RunTable)
    → get t f.run_id ≡ some f
    → e.run_id ≢ f.run_id
    → get (e ∷ t) f.run_id ≡ some f
unfolding get
get-skip e f t g n = ground (arith, text_same_iff e.run_id f.run_id)

-- In a table with distinct ids each entry is found under its own id.
pub get-own : (t : RunTable) → DistinctIds t → All (λ e. get t e.run_id ≡ some e) t
get-own [] h = tt
get-own (e ∷ t) h = (unfold get in rw (same_refl e.run_id), later t (get-own t h.1) h.0)
  where
    later :
        (s : RunTable)
        → All (λ f. get t f.run_id ≡ some f) s
        → All (λ f. e.run_id ≢ f.run_id) s
        → All (λ f. get (e ∷ t) f.run_id ≡ some f) s
    later [] g n = tt
    later (f ∷ s) g n = (get-skip e f t g.0 n.0, later s g.1 n.1)
