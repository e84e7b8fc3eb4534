-- ===== src/CoveritemFlags/RoundTrip.antt =====
-- The flags of a database, written and applied to its items again.
use mathlib.Core.Path.{ap₂}
use covsight_core.Prelude.{
  ℕ, suc, ◌≤◌, ◌≡◌, List, [], ◌∷◌, ◌++◌, map, false, ok, ◌==◌, ==_iff, length, arith, refl,
  append-nil, Bool-cases, inl, inr, sym, ◌∙◌, ap,
}
use covsight_core.Varint.{Bytes, encode_nat, encode_varint, decode_varint}
use covsight_core.Varint.Encode.{encode_nat-small}
use covsight_core.Varint.RoundTrip.{decode-encode_nat}
use covsight_core.Deltas.RoundTrip.{Ascending, pair_bytes, write_pairs-Ascending, read_pairs-bytes}
use covsight_core.CoveritemFlags.{
  CoverItem, default_flags, set_flags, flag_entries, write_entries, serialize, apply_flags,
  deserialize,
}

-- The items as the reader finds them: with the default flags of their types.
abbrev pub reset : List CoverItem → List CoverItem
reset items = map (λ ci. set_flags (default_flags ci.cover_type) ci) items

lower : (p q : ℕ) (es : List (ℕ × ℕ)) → p ≤ q → Ascending q es → Ascending p es
lower p q [] h a = tt
lower p q ((i, v) ∷ es) h a = (omega (arith, a.0), a.1)

flag_entries-Ascending : (i : ℕ) (items : List CoverItem) → Ascending i (flag_entries i items)
unfolding flag_entries
flag_entries-Ascending i [] = tt
flag_entries-Ascending i (ci ∷ items) =
    let later = lower i (suc i) _ (omega arith) (flag_entries-Ascending (suc i) items) in
    elim (Bool-cases (ci.cover_flags == default_flags ci.cover_type)) [
      | inl same ↦ rw same later
      | inr other ↦ rw other (omega arith, later)
    ]

-- An item before the first entry gets its default.
apply_flags-before :
    (i : ℕ) (es : List (ℕ × ℕ)) (ci : CoverItem) (items : List CoverItem)
    → Ascending (suc i) es
    → apply_flags i es (ci ∷ items)
      ≡ set_flags (default_flags ci.cover_type) ci ∷ apply_flags (suc i) es items
unfolding apply_flags
apply_flags-before i [] ci items a = refl
apply_flags-before i ((j, v) ∷ es) ci items a = ground arith

-- The next entry is for this item.
apply_flags-here :
    (i v : ℕ) (es : List (ℕ × ℕ)) (ci : CoverItem) (items : List CoverItem)
    → apply_flags i ((i, v) ∷ es) (ci ∷ items) ≡ set_flags v ci ∷ apply_flags (suc i) es items
unfolding apply_flags
apply_flags-here i v es ci items = rw ((==_iff i i).1 refl) refl

set_flags-back : (ci : CoverItem) (g f : ℕ) → f ≡ ci.cover_flags → set_flags f (set_flags g ci) ≡ ci
unfolding set_flags
set_flags-back ci g f h = ap (λ (n : ℕ). record ci { cover_flags = n }) h

set_flags-type : (ci : CoverItem) (g : ℕ) → (set_flags g ci).cover_type ≡ ci.cover_type
unfolding set_flags
set_flags-type ci g = refl

apply_flags-entries :
    (i : ℕ) (items : List CoverItem) → apply_flags i (flag_entries i items) (reset items) ≡ items
unfolding flag_entries
apply_flags-entries i [] = unfold apply_flags in refl
apply_flags-entries i (ci ∷ items) =
    elim (Bool-cases (ci.cover_flags == default_flags ci.cover_type)) [
      | inl same ↦
          let d = default_flags ci.cover_type in
          rw same (
            apply_flags-before i _ (set_flags d ci) (reset items)
              (flag_entries-Ascending (suc i) items)
            ∙ ap₂ ◌∷◌
                (set_flags-back ci d (default_flags (set_flags d ci).cover_type)
                  (ap default_flags (set_flags-type ci d) ∙ sym ((==_iff ci.cover_flags d).0 same)))
                (apply_flags-entries (suc i) items))
      | inr other ↦
          let d = default_flags ci.cover_type in
          rw other (
            apply_flags-here i ci.cover_flags _ (set_flags d ci) (reset items)
            ∙ ap₂ ◌∷◌ (set_flags-back ci d ci.cover_flags refl) (apply_flags-entries (suc i) items))
    ]

apply_flags-none : (i : ℕ) (items : List CoverItem) → apply_flags i [] (reset items) ≡ reset items
unfolding apply_flags set_flags
apply_flags-none i [] = refl
apply_flags-none i (ci ∷ items) =
    ap (◌∷◌ (set_flags (default_flags ci.cover_type) ci)) (apply_flags-none (suc i) items)

one : (rest : Bytes) → decode_varint (1 ∷ rest) ≡ ok (1, rest)
one rest = rw (encode_nat-small 1 (omega arith)) at (decode-encode_nat 1 rest)

suc_nonzero : (n : ℕ) → (suc n == 0) ≡ false
suc_nonzero n = ground arith

write_entries-bytes :
    (es : List (ℕ × ℕ)) (items : List CoverItem)
    → Ascending 0 es
    → (bytes : Bytes) × (write_entries es ≡ ok bytes)
      × (deserialize bytes (reset items) ≡ ok (apply_flags 0 es (reset items)))
unfolding write_entries deserialize encode_varint
write_entries-bytes [] items h = ([], refl, ap ok (sym (apply_flags-none 0 items)))
write_entries-bytes (x ∷ es) items h =
    let n = encode_nat (length (x ∷ es)) in
    let pairs = pair_bytes 0 (x ∷ es) in
    (
      1 ∷ (n ++ pairs),
      rw (write_pairs-Ascending 0 (x ∷ es) h, encode_nat-small 1 (omega arith)),
      rw
          (
            one (n ++ pairs),
            decode-encode_nat (length (x ∷ es)) pairs,
            ← append-nil pairs,
            read_pairs-bytes 0 (x ∷ es) [] h,
            suc_nonzero (length es),
          )
          refl,
    )

-- The flags of any list of cover items are written, and applying what was written to the same items
-- with the default flags of their types gives every item its flags again.
pub deserialize-serialize_flags :
    (items : List CoverItem)
    → (bytes : Bytes) × (serialize items ≡ ok bytes) × (deserialize bytes (reset items) ≡ ok items)
unfolding serialize
deserialize-serialize_flags items =
    let (bytes, w, r) =
      write_entries-bytes (flag_entries 0 items) items (flag_entries-Ascending 0 items) in
    (bytes, w, r ∙ ap ok (apply_flags-entries 0 items))
