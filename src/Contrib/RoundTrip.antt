-- ===== src/Contrib/RoundTrip.antt =====
-- contrib.py: the contributions that are written are read back.
use covsight_core.Prelude.{
  ℕ, ◌+◌, ◌<◌, ◌≡◌, List, [], ◌∷◌, ◌++◌, map, All, false, Option, none, some, ok, if◌then◌else◌,
  length, arith, refl, ap, sym, ◌∙◌, inl, inr, append-nil, Bool-cases, ==_iff, ◌==◌,
}
use covsight_core.Prelude.Int.{ℤ, pos}
use covsight_core.Prelude.Keys.{nat_key}
use covsight_core.Prelude.Text.{Text, text_key, text_same, text_same_iff}
use covsight_core.Prelude.Dict.{Dict, lookup, put, lookup-put}
use covsight_core.Varint.{Bytes, encode_nat, encode_varint}
use covsight_core.Varint.RoundTrip.{decode-encode_nat}
use covsight_core.Deltas.RoundTrip.{pair_bytes, write_pairs-Ascending, read_pairs-bytes}
use covsight_core.MemberMerge.{sorted_entries}
use covsight_core.MemberMerge.Union.{sorted_entries-Ascending}
use covsight_core.Contrib.{
  PyInt, member_name, write_member, write_members, read_entries, read_member,
}
use covsight_core.Contrib.Names.{hist_idx_of-member_name}
use covsight_core.Contrib.Renumber.{
  AreMembers, SourcesOk, names_apart, nodes_of, renumber_from, renumber_contrib-member_name,
}

-- The bytes of the contributions of one history node.
abbrev member_bytes : Dict ℕ ℕ → Bytes
member_bytes d = encode_nat (length (sorted_entries d)) ++ pair_bytes 0 (sorted_entries d)

write_member-bytes : (d : Dict ℕ ℕ) → write_member d ≡ ok (member_bytes d)
unfolding write_member encode_varint
write_member-bytes d =
    rw (write_pairs-Ascending 0 (sorted_entries d) (sorted_entries-Ascending d)) refl

-- The calls that record some contributions.
abbrev pub calls : ℕ → Dict ℕ ℕ → List (ℤ × ℕ × ℕ)
calls h d = map (λ (e : ℕ × ℕ). (pos h, e.0, e.1)) (sorted_entries d)

-- Each history node is named once, and is one of so many.
abbrev pub AreContribs : ℕ → Dict ℕ (Dict ℕ ℕ) → Type 0
AreContribs nodes [] = Unit
AreContribs nodes ((h, d) ∷ per_test) =
    (h < nodes) × (lookup h per_test ≡ none) × AreContribs nodes per_test

-- What is written for the contributions of a node, if there are any.
abbrev written_or : Option Bytes → Option (Dict ℕ ℕ) → Option Bytes
written_or old none = old
written_or old (some []) = old
written_or old (some (e ∷ d)) = some (member_bytes (e ∷ d))

module _ (py : PyInt) where
  read-member_bytes :
      (h : ℕ) (d : Dict ℕ ℕ) → read_member py (member_name h) (member_bytes d) ≡ ok (calls h d)
  unfolding read_member read_entries
  read-member_bytes h d =
      ap (λ i. read_entries py i (member_bytes d)) (hist_idx_of-member_name py h)
      ∙ (rw
          (
            decode-encode_nat (length (sorted_entries d)) (pair_bytes 0 (sorted_entries d)),
            ← (append-nil (pair_bytes 0 (sorted_entries d))),
            read_pairs-bytes 0 (sorted_entries d) [] (sorted_entries-Ascending d),
          )
          refl)

  put-AreMembers :
      (nodes h : ℕ) (payload : Bytes) (members : Dict Text Bytes)
      → AreMembers nodes members
      → h < nodes
      → lookup (member_name h) members ≡ none
      → AreMembers nodes (put (member_name h) payload members)
  unfolding put lookup
  put-AreMembers nodes h payload [] is lt fresh = ((h, lt, refl), refl, tt)
  put-AreMembers nodes h payload ((name, old) ∷ members) (named, apart, more) lt fresh =
      elim (Bool-cases (text_same name (member_name h))) [
        | inl same ↦ absurd (
            taken
              (sym (ap (λ b. if b then some old else lookup (member_name h) members) same) ∙ fresh))
        | inr other ↦ rw other (
          named,
          lookup-put (member_name h) name payload members
              ∙ ap (λ b. if b then some payload else lookup name members) (flipped other)
              ∙ apart,
          put-AreMembers nodes h payload members more lt (
              ap (λ b. if b then some old else lookup (member_name h) members) (sym other) ∙ fresh),
        )
      ]
    where
      taken : ◌≡◌ {A = Option Bytes} (some old) none → ⊥
      taken p = cc

      flipped : text_same name (member_name h) ≡ false → text_same (member_name h) name ≡ false
      flipped other =
          ground (arith, text_same_iff name (member_name h), text_same_iff (member_name h) name)

  lookup-put_other :
      (i j : ℕ) (payload : Bytes) (members : Dict Text Bytes)
      → (i == j) ≡ false
      → lookup (member_name j) (put (member_name i) payload members)
        ≡ lookup (member_name j) members
  lookup-put_other i j payload members other =
      lookup-put (member_name i) (member_name j) payload members
      ∙ ap (λ b. if b then some payload else lookup (member_name j) members)
          (names_apart py i j (ground (arith, other)))

  -- The nodes that come later still have no member.
  put-fresh :
      (h : ℕ) (payload : Bytes) (members : Dict Text Bytes) (per_test : Dict ℕ (Dict ℕ ℕ))
      → lookup h per_test ≡ none
      → All (λ (e : ℕ × Dict ℕ ℕ). lookup (member_name e.0) members ≡ none) per_test
      → All
          (λ (e : ℕ × Dict ℕ ℕ).
            lookup (member_name e.0) (put (member_name h) payload members) ≡ none)
          per_test
  unfolding lookup
  put-fresh h payload members [] once fresh = tt
  put-fresh h payload members ((j, d) ∷ per_test) once fresh = elim (Bool-cases (j == h)) [
    | inl same ↦
        absurd (taken (sym (ap (λ b. if b then some d else lookup h per_test) same) ∙ once))
    | inr other ↦ (
      lookup-put_other h j payload members (flipped other) ∙ fresh.0,
      put-fresh h payload members per_test
          (ap (λ b. if b then some d else lookup h per_test) (sym other) ∙ once) fresh.1,
    )
  ]
    where
      taken : ◌≡◌ {A = Option (Dict ℕ ℕ)} (some d) none → ⊥
      taken p = cc

      flipped : (j == h) ≡ false → (h == j) ≡ false
      flipped other = ground arith

  write_members-ok :
      (nodes : ℕ) (per_test : Dict ℕ (Dict ℕ ℕ)) (members : Dict Text Bytes)
      → AreContribs nodes per_test
      → AreMembers nodes members
      → All (λ (e : ℕ × Dict ℕ ℕ). lookup (member_name e.0) members ≡ none) per_test
      → (out : Dict Text Bytes) × (write_members per_test members ≡ ok out)
        × AreMembers nodes out
        × ((h : ℕ)
            → lookup (member_name h) out
              ≡ written_or (lookup (member_name h) members) (lookup h per_test))
  unfolding write_members lookup
  write_members-ok nodes [] members is ms fresh = (members, refl, ms, λ h. refl)
  write_members-ok nodes ((h, []) ∷ per_test) members is ms fresh =
      let (out, made, are, at) = write_members-ok nodes per_test members is.2 ms fresh.1 in
      (out, made, are, λ j. at j ∙ skipped j (lookup (member_name j) members))
    where
      skipped :
          (j : ℕ) (old : Option Bytes)
          → written_or old (lookup j per_test)
            ≡ written_or old (if h == j then some [] else lookup j per_test)
      skipped j old = elim (Bool-cases (h == j)) [
        | inl same ↦
            ap (written_or old) (ap (λ i. lookup i per_test) (sym ((==_iff h j).0 same)) ∙ is.1)
            ∙ ap (λ b. written_or old (if b then some [] else lookup j per_test)) (sym same)
        | inr other ↦
            ap (λ b. written_or old (if b then some [] else lookup j per_test)) (sym other)
      ]
  write_members-ok nodes ((h, e ∷ d) ∷ per_test) members is ms fresh =
      let payload = member_bytes (e ∷ d) in
      let members' = put (member_name h) payload members in
      let (out, made, are, at) =
        write_members-ok nodes per_test members' is.2
          (put-AreMembers nodes h payload members ms is.0 fresh.0)
          (put-fresh h payload members per_test is.1 fresh.1) in
      (out, rw (write_member-bytes (e ∷ d)) made, are, λ j. at j ∙ written j)
    where
      written :
          (j : ℕ)
          → written_or
              (lookup (member_name j) (put (member_name h) (member_bytes (e ∷ d)) members))
              (lookup j per_test)
            ≡ written_or
                (lookup (member_name j) members)
                (if h == j then some (e ∷ d) else lookup j per_test)
      written j = elim (Bool-cases (h == j)) [
        | inl same ↦
            ap (written_or _) (ap (λ i. lookup i per_test) (sym ((==_iff h j).0 same)) ∙ is.1)
            ∙ lookup-put (member_name h) (member_name j) (member_bytes (e ∷ d)) members
            ∙ ap (λ b. if b then some (member_bytes (e ∷ d)) else lookup (member_name j) members)
                ((text_same_iff (member_name h) (member_name j)).1
                  (ap member_name ((==_iff h j).0 same)))
            ∙ ap
                (λ b.
                  written_or (lookup (member_name j) members)
                    (if b then some (e ∷ d) else lookup j per_test))
                (sym same)
        | inr other ↦
            ap (λ old. written_or old (lookup j per_test))
              (lookup-put_other h j (member_bytes (e ∷ d)) members other)
            ∙ ap
                (λ b.
                  written_or (lookup (member_name j) members)
                    (if b then some (e ∷ d) else lookup j per_test))
                (sym other)
      ]

  none_yet :
      (per_test : Dict ℕ (Dict ℕ ℕ))
      → All (λ (e : ℕ × Dict ℕ ℕ). lookup {V = Bytes} (member_name e.0) [] ≡ none) per_test
  unfolding lookup
  none_yet [] = tt
  none_yet (e ∷ per_test) = (refl, none_yet per_test)

  -- The contributions of a source, in which each history node is named once, are written. If a node has
  -- contributions there, then in the merge of that source with others, whose members are of different
  -- history nodes, its index in the merged history has a member, and reading that member records, under
  -- that index, each bin and count of the node in the order of the bins.
  pub read_member-renumber_contrib :
      (before : List (ℕ × Dict Text Bytes)) (nodes : ℕ) (per_test : Dict ℕ (Dict ℕ ℕ))
      (after : List (ℕ × Dict Text Bytes)) (h : ℕ) (e : ℕ × ℕ) (d : Dict ℕ ℕ)
      → SourcesOk before
      → AreContribs nodes per_test
      → SourcesOk after
      → h < nodes
      → lookup h per_test ≡ some (e ∷ d)
      → (members : Dict Text Bytes) × (payload : Bytes) × (write_members per_test [] ≡ ok members)
        × (lookup
              (member_name (h + nodes_of before))
              (renumber_from py 0 (before ++ (nodes, members) ∷ after) [])
            ≡ some payload)
        × (read_member py (member_name (h + nodes_of before)) payload
            ≡ ok (calls (h + nodes_of before) (e ∷ d)))
  read_member-renumber_contrib before nodes per_test after h e d ok_before is ok_after lt found =
      let (members, made, are, at) = write_members-ok nodes per_test [] is tt (none_yet per_test) in
      (
        members,
        member_bytes (e ∷ d),
        made,
        renumber_contrib-member_name py before nodes members after h ok_before are ok_after lt
            ∙ at h
            ∙ ap (written_or (lookup (member_name h) [])) found,
        read-member_bytes (h + nodes_of before) (e ∷ d),
      )
