-- ===== src/WaiverMerge/Latest.antt =====
-- ncdb_merger.py: the latest waiver of each id, and the loop of `_merge_waivers` on waivers.
use mathlib.Core.Path.{subst}
use covsight_core.Prelude.{
  ◌≡◌, [], ◌∷◌, ◌++◌, append_assoc, append-nil, map, Bool, true, false, Option, none, some, In,
  In-first, In-second, if◌then◌else◌, All, All-append, All-mono, arith, refl, sym, ◌∙◌, inl, inr,
  Bool-cases,
}
use covsight_core.Prelude.Text.{Text, text_key, text_same, text_same_iff}
use covsight_core.Prelude.Dict.{Dict, lookup, put, lookup-put}
use covsight_core.Waivers.{Waiver, WaiverSet, text_less, find}
use covsight_core.Waivers.Active.{text_less_trans}

-- One of the waivers of the id, none of which was approved later; or there is none of it.
abbrev pub IsLatest : Text → WaiverSet → Option Waiver → Type 0
IsLatest id ws none = All (λ w. text_same w.id id ≡ false) ws
IsLatest id ws (some v) =
    In v ws
    × (v.id ≡ id)
    × All (λ w. (w.id ≡ id) → text_less v.approved_at w.approved_at ≡ false) ws

text_less-irreflexive : (t : Text) → text_less t t ≡ false
text_less-irreflexive [] = refl
text_less-irreflexive (c ∷ t) = ground (arith, text_less-irreflexive t)

text_less-asymmetric : (s t : Text) → text_less s t ≡ true → text_less t s ≡ false
text_less-asymmetric [] [] h = cc
text_less-asymmetric [] (c ∷ t) h = refl
text_less-asymmetric (b ∷ s) [] h = cc
text_less-asymmetric (b ∷ s) (c ∷ t) h = ground (arith, text_less-asymmetric s t)

-- What is not later than a time is not later than a later time.
text_less-later :
    (old new t : Text)
    → text_less old new ≡ true
    → text_less old t ≡ false
    → text_less new t ≡ false
text_less-later old new t h le = elim (Bool-cases (text_less new t)) [
  | inl later ↦
      absurd (no (sym (text_less_trans old new t (text_less-asymmetric old new h) later) ∙ le))
  | inr not_later ↦ not_later
]
  where
    no : true ≡ false → ⊥
    no e = cc

abbrev pub is_newer : Waiver → Option Waiver → Bool
is_newer w none = true
is_newer w (some old) = text_less old.approved_at w.approved_at

-- The loop on waivers instead of their dictionaries.
abbrev pub keep_latest : Dict Text Waiver → Waiver → Dict Text Waiver
keep_latest d w = if is_newer w (lookup w.id d) then put w.id w d else d

abbrev pub keep_all : Dict Text Waiver → WaiverSet → Dict Text Waiver
keep_all d [] = d
keep_all d (w ∷ ws) = keep_all (keep_latest d w) ws

abbrev pub kept : Dict Text Waiver → WaiverSet
kept d = map (λ (e : Text × Waiver). e.1) d

abbrev Keyed : Dict Text Waiver → Type 0
Keyed d = All (λ (e : Text × Waiver). e.1.id ≡ e.0) d

pub find-kept : (id : Text) (d : Dict Text Waiver) → Keyed d → find id (kept d) ≡ lookup id d
unfolding find lookup
find-kept id [] h = refl
find-kept id ((k, w) ∷ d) h = rw (h.0, find-kept id d h.1) refl

put-Keyed : (w : Waiver) (d : Dict Text Waiver) → Keyed d → Keyed (put w.id w d)
unfolding put
put-Keyed w [] h = (refl, tt)
put-Keyed w ((k, v) ∷ d) h = elim (Bool-cases (text_same k w.id)) [
  | inl same ↦ rw same (sym ((text_same_iff k w.id).0 same), h.1)
  | inr other ↦ rw other (h.0, put-Keyed w d h.1)
]

IsLatest-same :
    (w : Waiver) (seen : WaiverSet) (o : Option Waiver)
    → IsLatest w.id seen o
    → IsLatest w.id (seen ++ w ∷ []) (if is_newer w o then some w else o)
IsLatest-same w seen none h = (
  In-second w seen (w ∷ []) (inl refl),
  refl,
  All-append _ seen (w ∷ []) (All-mono (λ v other e. absurd (no v other e)) seen h)
      ((λ e. text_less-irreflexive w.approved_at), tt),
)
  where
    no : (v : Waiver) → text_same v.id w.id ≡ false → v.id ≡ w.id → ⊥
    no v other e = ground (arith, text_same_iff v.id w.id)
IsLatest-same w seen (some v) h = elim (Bool-cases (text_less v.approved_at w.approved_at)) [
  | inl newer ↦ rw newer (
    In-second w seen (w ∷ []) (inl refl),
    refl,
    All-append _ seen (w ∷ [])
        (All-mono (λ x le e. text_less-later v.approved_at w.approved_at x.approved_at newer (le e))
          seen h.2)
        ((λ e. text_less-irreflexive w.approved_at), tt),
  )
  | inr older ↦
      rw older
        (In-first v seen (w ∷ []) h.0, h.1, All-append _ seen (w ∷ []) h.2 ((λ e. older), tt))
]

IsLatest-other :
    (id : Text) (w : Waiver) (seen : WaiverSet) (o : Option Waiver)
    → text_same w.id id ≡ false
    → IsLatest id seen o
    → IsLatest id (seen ++ w ∷ []) o
IsLatest-other id w seen none other h = All-append _ seen (w ∷ []) h (other, tt)
IsLatest-other id w seen (some v) other h =
    (In-first v seen (w ∷ []) h.0, h.1, All-append _ seen (w ∷ []) h.2 ((λ e. absurd (no e)), tt))
  where
    no : w.id ≡ id → ⊥
    no e = ground (arith, text_same_iff w.id id)

abbrev Kept : WaiverSet → Dict Text Waiver → Type 0
Kept seen d = Keyed d × ((id : Text) → IsLatest id seen (lookup id d))

lookup-same :
    (b : Bool) (w : Waiver) (d : Dict Text Waiver)
    → lookup w.id (if b then put w.id w d else d) ≡ (if b then some w else lookup w.id d)
lookup-same true w d = rw (lookup-put w.id w.id w d, (text_same_iff w.id w.id).1 refl) refl
lookup-same false w d = refl

lookup-other :
    (b : Bool) (id : Text) (w : Waiver) (d : Dict Text Waiver)
    → text_same w.id id ≡ false
    → lookup id (if b then put w.id w d else d) ≡ lookup id d
lookup-other true id w d other = rw (lookup-put w.id id w d, other) refl
lookup-other false id w d other = refl

keep_latest-Kept :
    (seen : WaiverSet) (d : Dict Text Waiver) (w : Waiver)
    → Kept seen d
    → Kept (seen ++ w ∷ []) (keep_latest d w)
keep_latest-Kept seen d w (keyed, latest) = (
  keyed_if (is_newer w (lookup w.id d)),
  λ id. elim (Bool-cases (text_same w.id id)) [
    | inl same ↦
        subst (λ i. IsLatest i (seen ++ w ∷ []) (lookup i (keep_latest d w)))
          ((text_same_iff w.id id).0 same)
          (subst (IsLatest w.id (seen ++ w ∷ []))
            (sym (lookup-same (is_newer w (lookup w.id d)) w d))
            (IsLatest-same w seen (lookup w.id d) (latest w.id)))
    | inr other ↦
        subst (IsLatest id (seen ++ w ∷ []))
          (sym (lookup-other (is_newer w (lookup w.id d)) id w d other))
          (IsLatest-other id w seen (lookup id d) other (latest id))
  ],
)
  where
    keyed_if : (b : Bool) → Keyed (if b then put w.id w d else d)
    keyed_if true = put-Keyed w d keyed
    keyed_if false = keyed

pub keep_all-Kept :
    (seen : WaiverSet) (d : Dict Text Waiver) (ws : WaiverSet)
    → Kept seen d
    → Kept (seen ++ ws) (keep_all d ws)
keep_all-Kept seen d [] h = rw append-nil h
keep_all-Kept seen d (w ∷ ws) h =
    subst (λ all. Kept all (keep_all (keep_latest d w) ws)) (append_assoc seen (w ∷ []) ws)
      (keep_all-Kept (seen ++ w ∷ []) (keep_latest d w) ws (keep_latest-Kept seen d w h))

pub no_waivers : Kept [] []
unfolding lookup
no_waivers = (tt, λ id. tt)
