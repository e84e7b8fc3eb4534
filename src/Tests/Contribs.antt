-- ===== src/Tests/Contribs.antt =====
-- Contributions at concrete inputs.
use covsight_core.Prelude.{
  ℕ, ◌+◌, ◌≡◌, List, [], ◌∷◌, ◌++◌, some, ok, refl, arith, ap, sym, ◌∙◌, append-nil,
}
use covsight_core.Prelude.Int.{pos}
use covsight_core.Prelude.Text.{Text, decimal, read_digits, read-decimal, text_key}
use covsight_core.Prelude.Keys.{nat_key}
use covsight_core.Prelude.Dict.{Dict, lookup}
use covsight_core.Varint.{Bytes}
use covsight_core.Contrib.{PyInt, member_name, write_members, read_member}
use covsight_core.Contrib.Renumber.{
  AreMembers, nodes_of, renumber_from, renumber_contrib-member_name,
}
use covsight_core.Contrib.RoundTrip.{AreContribs, calls, read_member-renumber_contrib}

-- Texts of digits, without the other spellings that Python reads.
abbrev digits_only : PyInt
digits_only = record {
  int_of = λ t. some (pos (read_digits 0 t).0);
  int_of-decimal = λ n.
      ap (λ (p : ℕ × Text). some (pos p.0))
        (ap (read_digits 0) (sym (append-nil (decimal n))) ∙ read-decimal n [] tt);
}

abbrev one_source : Dict Text Bytes
one_source = (member_name 0, 1 ∷ 5 ∷ 2 ∷ []) ∷ []

-- The same member name in two sources.
abbrev same_names : List (ℕ × Dict Text Bytes)
same_names = (2, one_source) ∷ []

one_source-AreMembers : AreMembers 2 one_source
unfolding lookup
one_source-AreMembers = ((0, omega arith, refl), refl, tt)

renumber_contrib-member_name_example :
    lookup
      (member_name (0 + nodes_of same_names))
      (renumber_from digits_only 0 (same_names ++ (2, one_source) ∷ []) [])
    ≡ lookup (member_name 0) one_source
renumber_contrib-member_name_example =
    renumber_contrib-member_name digits_only same_names 2 one_source [] 0
      (one_source-AreMembers, tt) one_source-AreMembers tt (omega arith)

abbrev per_test : Dict ℕ (Dict ℕ ℕ)
per_test = (1, (9, 4) ∷ (3, 1) ∷ []) ∷ (0, []) ∷ []

per_test-AreContribs : AreContribs 2 per_test
unfolding lookup
per_test-AreContribs = (omega arith, refl, (omega arith, refl, tt))

lookup-per_test : lookup 1 per_test ≡ some ((9, 4) ∷ (3, 1) ∷ [])
unfolding lookup
lookup-per_test = refl

read_member-renumber_contrib_example :
    (members : Dict Text Bytes) × (payload : Bytes) × (write_members per_test [] ≡ ok members)
    × (lookup
          (member_name (1 + nodes_of same_names))
          (renumber_from digits_only 0 (same_names ++ (2, members) ∷ []) [])
        ≡ some payload)
    × (read_member digits_only (member_name (1 + nodes_of same_names)) payload
        ≡ ok (calls (1 + nodes_of same_names) ((9, 4) ∷ (3, 1) ∷ [])))
read_member-renumber_contrib_example =
    read_member-renumber_contrib digits_only same_names 2 per_test [] 1 (9, 4) ((3, 1) ∷ [])
      (one_source-AreMembers, tt) per_test-AreContribs tt (omega arith) lookup-per_test
