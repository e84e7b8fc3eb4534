-- ===== src/MemberMerge/Union.antt =====
-- member_merge.py: which flags the merged member holds.
use covsight_core.Prelude.{
  ==_iff, ℕ, suc, ◌≤◌, ◌≡◌, List, [], ◌∷◌, ◌++◌, Option, none, some, ok, traverse, ◌==◌, ltb,
  if◌then◌else◌, length, bit_or, arith, refl, ap, sym, ◌∙◌, append-nil, Bool-cases, inl, inr,
  >>=-eq-ok,
}
use covsight_core.Prelude.Keys.{nat_key}
use covsight_core.Prelude.Dict.{Dict, lookup, put, lookup-put}
use covsight_core.Varint.{Bytes, encode_nat, encode_varint, decode_varint}
use covsight_core.Varint.Encode.{encode_nat-small}
use covsight_core.Varint.RoundTrip.{decode-encode_nat}
use covsight_core.Deltas.RoundTrip.{Ascending, pair_bytes, write_pairs-Ascending, read_pairs-bytes}
use covsight_core.MemberMerge.{
  decode_flags, flags_or_zero, union_entries, union_payloads, insert_entry, sorted_entries,
  write_flags, merge_coveritem_flags,
}

-- The union of the flags that the entries give one cover item, beginning with some; none if there are none.
abbrev pub union_of : ℕ → Option ℕ → List (ℕ × ℕ) → Option ℕ
union_of j found [] = found
union_of j found ((index, flags) ∷ entries) =
    union_of j (if index == j then some (bit_or (flags_or_zero found) flags) else found) entries

abbrev pub union_all : ℕ → Option ℕ → List (List (ℕ × ℕ)) → Option ℕ
union_all j found [] = found
union_all j found (entries ∷ tables) = union_all j (union_of j found entries) tables

lookup-union_entries :
    (j : ℕ) (es : List (ℕ × ℕ)) (d : Dict ℕ ℕ)
    → lookup j (union_entries es d) ≡ union_of j (lookup j d) es
unfolding union_entries
lookup-union_entries j [] d = refl
lookup-union_entries j ((index, flags) ∷ es) d =
    lookup-union_entries j es (put index (bit_or (flags_or_zero (lookup index d)) flags) d)
    ∙ ap (λ found. union_of j found es)
        (lookup-put index j (bit_or (flags_or_zero (lookup index d)) flags) d ∙ same)
  where
    same :
        (if index == j then some (bit_or (flags_or_zero (lookup index d)) flags) else lookup j d)
        ≡ (if index == j then some (bit_or (flags_or_zero (lookup j d)) flags) else lookup j d)
    same = elim (Bool-cases (index == j)) [
      | inl e ↦ rw ((==_iff index j).0 e) refl
      | inr e ↦ rw e refl
    ]

union_tables : List (List (ℕ × ℕ)) → Dict ℕ ℕ → Dict ℕ ℕ
union_tables [] d = d
union_tables (es ∷ tables) d = union_tables tables (union_entries es d)

lookup-union_tables :
    (j : ℕ) (tables : List (List (ℕ × ℕ))) (d : Dict ℕ ℕ)
    → lookup j (union_tables tables d) ≡ union_all j (lookup j d) tables
unfolding union_tables
lookup-union_tables j [] d = refl
lookup-union_tables j (es ∷ tables) d =
    lookup-union_tables j tables (union_entries es d)
    ∙ ap (λ found. union_all j found tables) (lookup-union_entries j es d)

ok_injective : {A : Type 0} {a b : A} → ok a ≡ ok b → a ≡ b
ok_injective h = cc

union_payloads-tables :
    (payloads : List Bytes) (tables : List (List (ℕ × ℕ))) (d : Dict ℕ ℕ)
    → traverse decode_flags payloads ≡ ok tables
    → union_payloads payloads d ≡ ok (union_tables tables d)
unfolding union_payloads union_tables
union_payloads-tables [] tables d h = rw (← (ok_injective h)) refl
union_payloads-tables (payload ∷ payloads) tables d h =
    let (es, first, rest) = >>=-eq-ok (decode_flags payload) _ h in
    let (ts, others, both) = >>=-eq-ok (traverse decode_flags payloads) _ rest in
    rw (first, ← (ok_injective both))
      (union_payloads-tables payloads ts (union_entries es d) others)

lookup-insert_entry :
    (j k v : ℕ) (es : List (ℕ × ℕ))
    → lookup j (insert_entry k v es) ≡ (if k == j then some v else lookup j es)
unfolding insert_entry lookup
lookup-insert_entry j k v [] = ground arith
lookup-insert_entry j k v ((i, w) ∷ es) = ground (arith, lookup-insert_entry j k v es)

lookup-sorted_entries : (j : ℕ) (d : Dict ℕ ℕ) → lookup j (sorted_entries d) ≡ lookup j d
unfolding sorted_entries lookup
lookup-sorted_entries j [] = refl
lookup-sorted_entries j ((k, v) ∷ d) =
    ground (arith, lookup-insert_entry j k v (sorted_entries d), lookup-sorted_entries j d)

insert_entry-Ascending :
    (p k v : ℕ) (es : List (ℕ × ℕ)) → p ≤ k → Ascending p es → Ascending p (insert_entry k v es)
unfolding insert_entry
insert_entry-Ascending p k v [] h asc = (h, tt)
insert_entry-Ascending p k v ((j, w) ∷ es) h asc = elim (Bool-cases (ltb j k)) [
  | inl less ↦ rw less (asc.0, insert_entry-Ascending j k v es (ground arith) asc.1)
  | inr more ↦ rw more (h, (ground arith, asc.1))
]

pub sorted_entries-Ascending : (d : Dict ℕ ℕ) → Ascending 0 (sorted_entries d)
unfolding sorted_entries
sorted_entries-Ascending [] = tt
sorted_entries-Ascending ((k, v) ∷ d) =
    insert_entry-Ascending 0 k v (sorted_entries d) (omega arith) (sorted_entries-Ascending d)

length-insert_entry : (k v : ℕ) (es : List (ℕ × ℕ)) → length (insert_entry k v es) ≡ suc (length es)
unfolding insert_entry
length-insert_entry k v [] = refl
length-insert_entry k v ((j, w) ∷ es) = ground (arith, length-insert_entry k v es)

length-sorted_entries : (d : Dict ℕ ℕ) → length (sorted_entries d) ≡ length d
unfolding sorted_entries
length-sorted_entries [] = refl
length-sorted_entries ((k, v) ∷ d) =
    length-insert_entry k v (sorted_entries d) ∙ ap suc (length-sorted_entries d)

one : (rest : Bytes) → decode_varint (1 ∷ rest) ≡ ok (1, rest)
one rest = rw (encode_nat-small 1 (omega arith)) at (decode-encode_nat 1 rest)

sorted_entries-nil : sorted_entries [] ≡ []
unfolding sorted_entries
sorted_entries-nil = refl

-- What is written of a dictionary is decoded as its entries in the order of their indices.
write_flags-decode :
    (d : Dict ℕ ℕ)
    → (bytes : Bytes) × (write_flags d ≡ ok bytes) × (decode_flags bytes ≡ ok (sorted_entries d))
unfolding write_flags decode_flags encode_varint
write_flags-decode [] = ([], refl, ap ok (sym sorted_entries-nil))
write_flags-decode (e ∷ d) =
    let es = sorted_entries (e ∷ d) in
    let n = encode_nat (length (e ∷ d)) in
    let bytes = pair_bytes 0 es in
    (
      1 ∷ (n ++ bytes),
      rw (
        write_pairs-Ascending 0 es (sorted_entries-Ascending (e ∷ d)),
        encode_nat-small 1 (omega arith),
      ),
      rw
          (
            one (n ++ bytes),
            ← (length-sorted_entries (e ∷ d)),
            decode-encode_nat (length es) bytes,
            ← append-nil bytes,
            read_pairs-bytes 0 es [] (sorted_entries-Ascending (e ∷ d)),
          )
          refl,
    )

-- Where every payload can be decoded, they are merged to a payload that can be decoded, whose indices do
-- not descend, and in which an index has the bitwise or of the flags that any payload gives it, and is
-- there only if some payload has it.
pub merge_coveritem_flags-union :
    (payloads : List Bytes) (tables : List (List (ℕ × ℕ)))
    → traverse decode_flags payloads ≡ ok tables
    → (bytes : Bytes) × (merged : List (ℕ × ℕ)) × (merge_coveritem_flags payloads ≡ ok bytes)
      × (decode_flags bytes ≡ ok merged)
      × Ascending 0 merged
      × ((j : ℕ) → lookup j merged ≡ union_all j none tables)
unfolding merge_coveritem_flags lookup
merge_coveritem_flags-union payloads tables h =
    let d = union_tables tables [] in
    let (bytes, written, decoded) = write_flags-decode d in
    (
      bytes,
      sorted_entries d,
      rw (union_payloads-tables payloads tables [] h) written,
      decoded,
      sorted_entries-Ascending d,
      λ j. lookup-sorted_entries j d ∙ lookup-union_tables j tables [],
    )
