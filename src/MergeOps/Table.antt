-- ===== src/MergeOps/Table.antt =====
-- The table of merge operations, written for the bins of a database and read back.
use covsight_core.Prelude.{
  ℕ, zero, suc, ◌+◌, ◌≤◌, ◌<◌, ◌≡◌, List, [], ◌∷◌, ◌++◌, Option, none, some, ok, ◌==◌,
  if◌then◌else◌, length, get_elem?, arith, refl, append-nil, Bool-cases, inl, inr,
}
use covsight_core.Prelude.Keys.{nat_key}
use covsight_core.Prelude.Dict.{Dict, lookup, put, lookup-put}
use covsight_core.Varint.{Bytes, encode_nat, encode_varint, decode_varint}
use covsight_core.Varint.Encode.{encode_nat-small}
use covsight_core.Varint.RoundTrip.{decode-encode_nat}
use covsight_core.Deltas.RoundTrip.{Ascending, pair_bytes, write_pairs-Ascending, read_pairs-bytes}
use covsight_core.MergeOps.{
  op_for_cover_type, op_sum, entries_from, write_table, serialize, to_dict, deserialize,
}

Ascending-weaken : (p q : ℕ) (es : List (ℕ × ℕ)) → p ≤ q → Ascending q es → Ascending p es
Ascending-weaken p q [] h a = tt
Ascending-weaken p q ((i, v) ∷ es) h a = (omega (arith, a.0), a.1)

entries_from-Ascending : (i : ℕ) (ts : List (Option ℕ)) → Ascending i (entries_from i ts)
unfolding entries_from
entries_from-Ascending i [] = tt
entries_from-Ascending i (t ∷ ts) =
    let later = Ascending-weaken i (suc i) _ (omega arith) (entries_from-Ascending (suc i) ts) in
    elim (Bool-cases (op_for_cover_type t == op_sum)) [
      | inl additive ↦ rw additive later
      | inr other ↦ rw other (
        omega arith,
        Ascending-weaken i (suc i) _ (omega arith) (entries_from-Ascending (suc i) ts),
      )
    ]

-- Bins before the first index keep what the dictionary says of them.
lookup-before :
    (i j : ℕ) (ts : List (Option ℕ)) (d : Dict ℕ ℕ)
    → j < i
    → lookup j (to_dict d (entries_from i ts)) ≡ lookup j d
unfolding entries_from to_dict
lookup-before i j [] d h = refl
lookup-before i j (t ∷ ts) d h = ground (
  arith,
  lookup-before (suc i) j ts d,
  lookup-before (suc i) j ts (put i (op_for_cover_type t) d),
  lookup-put i j (op_for_cover_type t) d,
)

-- What the table says of a bin of the given type.
abbrev pub listed : Option ℕ → Option ℕ
listed t = let op = op_for_cover_type t in if op == op_sum then none else some op

lookup-entries :
    (i k j : ℕ) (ts : List (Option ℕ)) (d : Dict ℕ ℕ) (t : Option ℕ)
    → get_elem? ts k ≡ some t
    → i + k ≡ j
    → lookup j d ≡ none
    → lookup j (to_dict d (entries_from i ts)) ≡ listed t
unfolding entries_from to_dict
lookup-entries i k j [] d t e at fresh = cc
lookup-entries i zero j (u ∷ ts) d t e at fresh = ground (
  arith,
  lookup-before (suc i) j ts d,
  lookup-before (suc i) j ts (put i (op_for_cover_type u) d),
  lookup-put i j (op_for_cover_type u) d,
)
lookup-entries i (suc k) j (u ∷ ts) d t e at fresh = ground (
  arith,
  lookup-put i j (op_for_cover_type u) d,
  lookup-entries (suc i) k j ts d t e (omega arith),
  lookup-entries (suc i) k j ts (put i (op_for_cover_type u) d) t e (omega arith),
)

write_table-bytes :
    (es : List (ℕ × ℕ))
    → Ascending 0 es
    → (bytes : Bytes) × (write_table es ≡ ok bytes) × (deserialize bytes ≡ ok (to_dict [] es))
unfolding write_table deserialize encode_varint to_dict
write_table-bytes [] h = ([], refl, refl)
write_table-bytes (x ∷ es) h =
    let n = encode_nat (length (x ∷ es)) in
    let pairs = pair_bytes 0 (x ∷ es) in
    (
      1 ∷ (n ++ pairs),
      rw (write_pairs-Ascending 0 (x ∷ es) h, encode_nat-small 1 (omega arith)),
      rw (
        one (n ++ pairs),
        decode-encode_nat (length (x ∷ es)) pairs,
        ← append-nil pairs,
        read_pairs-bytes 0 (x ∷ es) [] h,
      ),
    )
  where
    one : (rest : Bytes) → decode_varint (1 ∷ rest) ≡ ok (1, rest)
    one rest = rw (encode_nat-small 1 (omega arith)) at (decode-encode_nat 1 rest)

-- For the bins of any database the writer succeeds, and the table that it wrote, or the empty member
-- where every bin is additive, is read back as a dictionary that gives each bin the operation of its
-- cover type, and no entry to a bin whose counts are added.
pub deserialize-serialize_ops :
    (types : List (Option ℕ))
    → (bytes : Bytes) × (ops : Dict ℕ ℕ) × (serialize types ≡ ok bytes)
      × (deserialize bytes ≡ ok ops)
      × ((i : ℕ) (t : Option ℕ) → get_elem? types i ≡ some t → lookup i ops ≡ listed t)
unfolding serialize
deserialize-serialize_ops types =
    let (bytes, w, r) = write_table-bytes (entries_from 0 types) (entries_from-Ascending 0 types) in
    (
      bytes,
      to_dict [] (entries_from 0 types),
      w,
      r,
      λ i t e. lookup-entries 0 i i types [] t e (omega arith) (unfold lookup in refl),
    )
