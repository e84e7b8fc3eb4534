-- ===== src/Contrib/Renumber.antt =====
-- member_merge.py, ncdb_merger.py: the contributions of each source keep their tests in a merge.
use mathlib.Core.Bool.{false≢true}
use covsight_core.Prelude.{
  ℕ, ◌+◌, ◌-◌, ◌<◌, ◌≤◌, ◌≡◌, ◌≢◌, List, [], ◌∷◌, ◌++◌, map, All, false, Option, none, some,
  if◌then◌else◌, arith, refl, ap, sym, ◌∙◌, inl, inr, Bool-cases,
}
use covsight_core.Prelude.Text.{Text, text_key, text_same, text_same_iff}
use covsight_core.Prelude.Dict.{Dict, lookup, put, lookup-put}
use covsight_core.Varint.{Bytes}
use covsight_core.Contrib.{
  PyInt, member_name, contrib_index, format_int, renumber_member, renumber_source, renumber_contrib,
  history_offsets,
}
use covsight_core.Contrib.Names.{contrib_index-member_name, member_name-injective}

-- The members of a source with so many history nodes: each is of one of them, and no two of the same.
abbrev pub AreMembers : ℕ → Dict Text Bytes → Type 0
AreMembers nodes [] = Unit
AreMembers nodes ((name, payload) ∷ members) =
    ((h : ℕ) × (h < nodes) × (name ≡ member_name h))
    × (lookup name members ≡ none)
    × AreMembers nodes members

-- The members of each source are of its own history nodes.
abbrev pub SourcesOk : List (ℕ × Dict Text Bytes) → Type 0
SourcesOk sources = All (λ s. AreMembers s.0 s.1) sources

-- The value of the first, or else of the second.
abbrev or_else {ℓ} : {A : Type ℓ} → Option A → Option A → Option A
or_else none b = b
or_else (some a) b = some a

-- The history nodes of some sources.
unfoldable pub nodes_of : List (ℕ × Dict Text Bytes) → ℕ
nodes_of [] = 0
nodes_of ((nodes, members) ∷ sources) = nodes + nodes_of sources

or_else-none {ℓ} : {A : Type ℓ} (a : Option A) → or_else a none ≡ a
or_else-none none = refl
or_else-none (some x) = refl

module _ (py : PyInt) where
  pub names_apart : (i j : ℕ) → i ≢ j → text_same (member_name i) (member_name j) ≡ false
  names_apart i j apart = elim (Bool-cases (text_same (member_name i) (member_name j))) [
    | inl same ↦ absurd (
        apart
          (member_name-injective py i j ((text_same_iff (member_name i) (member_name j)).0 same)))
    | inr other ↦ other
  ]

  renumbered :
      (offset h : ℕ) (name : Text) (payload : Bytes) (out : Dict Text Bytes)
      → name ≡ member_name h
      → renumber_member py (contrib_index py name) offset payload out
        ≡ put (member_name (h + offset)) payload out
  unfolding renumber_member member_name format_int
  renumbered offset h name payload out named =
      ap (λ i. renumber_member py i offset payload out)
        (ap (contrib_index py) named ∙ contrib_index-member_name py h)

  lookup-other :
      (i j : ℕ) (payload : Bytes) (out : Dict Text Bytes)
      → i ≢ j
      → lookup (member_name j) (put (member_name i) payload out) ≡ lookup (member_name j) out
  lookup-other i j payload out apart =
      lookup-put (member_name i) (member_name j) payload out
      ∙ ap (λ b. if b then some payload else lookup (member_name j) out) (names_apart i j apart)

  -- A source does not touch the names below its offset.
  renumber_source-below :
      (nodes offset j : ℕ) (members out : Dict Text Bytes)
      → AreMembers nodes members
      → j < offset
      → lookup (member_name j) (renumber_source py offset members out) ≡ lookup (member_name j) out
  unfolding renumber_source
  renumber_source-below nodes offset j [] out h lt = refl
  renumber_source-below nodes offset j ((name, payload) ∷ members) out
        ((i, small, named), fresh, more) lt =
      renumber_source-below nodes offset j members _ more lt
      ∙ ap (lookup (member_name j)) (renumbered offset i name payload out named)
      ∙ lookup-other (i + offset) j payload out (omega arith)

  -- A source puts its members at its offset.
  renumber_source-at :
      (nodes offset j : ℕ) (members out : Dict Text Bytes)
      → AreMembers nodes members
      → lookup (member_name (j + offset)) (renumber_source py offset members out)
        ≡ or_else (lookup (member_name j) members) (lookup (member_name (j + offset)) out)
  unfolding renumber_source lookup
  renumber_source-at nodes offset j [] out h = refl
  renumber_source-at nodes offset j ((name, payload) ∷ members) out
        ((i, small, named), fresh, more) =
      renumber_source-at nodes offset j members _ more
      ∙ ap (λ o. or_else (lookup (member_name j) members) (lookup (member_name (j + offset)) o))
          (renumbered offset i name payload out named)
      ∙ elim (Bool-cases (text_same name (member_name j))) [
        | inl same ↦
            let e = (text_same_iff name (member_name j)).0 same in
            let i≡j = member_name-injective py i j (sym named ∙ e) in
            rw (same, ap (λ n. lookup n members) (sym e) ∙ fresh)
              (lookup-put (member_name (i + offset)) (member_name (j + offset)) payload out
                ∙ ap (λ b. if b then some payload else lookup (member_name (j + offset)) out)
                    ((text_same_iff (member_name (i + offset)) (member_name (j + offset))).1
                      (ap (λ n. member_name (n + offset)) i≡j)))
        | inr other ↦ rw other (
            ap (or_else (lookup (member_name j) members)) (
              lookup-other (i + offset) (j + offset) payload out
                (omega (arith, apart i j named other))))
      ]
    where
      apart : (i j : ℕ) → name ≡ member_name i → text_same name (member_name j) ≡ false → i ≢ j
      apart i j named other e =
          false≢true (sym other ∙ (text_same_iff name (member_name j)).1 (named ∙ ap member_name e))

  -- A source has no member beyond its history nodes.
  AreMembers-beyond :
      (nodes j : ℕ) (members : Dict Text Bytes)
      → AreMembers nodes members
      → nodes ≤ j
      → lookup (member_name j) members ≡ none
  unfolding lookup
  AreMembers-beyond nodes j [] h le = refl
  AreMembers-beyond nodes j ((name, payload) ∷ members) ((i, small, named), fresh, more) le =
      ap (λ b. if b then some payload else lookup (member_name j) members)
        (ap (λ n. text_same n (member_name j)) named ∙ names_apart i j (omega arith))
      ∙ AreMembers-beyond nodes j members more le

  abbrev pub renumber_from : ℕ → List (ℕ × Dict Text Bytes) → Dict Text Bytes → Dict Text Bytes
  renumber_from start sources out =
      renumber_contrib py (map (λ (s : ℕ × Dict Text Bytes). s.1) sources)
        (history_offsets start (map (λ (s : ℕ × Dict Text Bytes). s.0) sources)) out

  renumber_from-below :
      (start j : ℕ) (sources : List (ℕ × Dict Text Bytes)) (out : Dict Text Bytes)
      → SourcesOk sources
      → j < start
      → lookup (member_name j) (renumber_from start sources out) ≡ lookup (member_name j) out
  unfolding renumber_contrib history_offsets
  renumber_from-below start j [] out h lt = refl
  renumber_from-below start j ((nodes, members) ∷ sources) out h lt =
      renumber_from-below (start + nodes) j sources _ h.1 (omega arith)
      ∙ renumber_source-below nodes start j members out h.0 lt

  renumber_from-at :
      (start h : ℕ) (before : List (ℕ × Dict Text Bytes)) (nodes : ℕ) (members : Dict Text Bytes)
      (after : List (ℕ × Dict Text Bytes)) (out : Dict Text Bytes)
      → SourcesOk before
      → AreMembers nodes members
      → SourcesOk after
      → h < nodes
      → ((j : ℕ) → start ≤ j → lookup (member_name j) out ≡ none)
      → lookup
          (member_name (h + (start + nodes_of before)))
          (renumber_from start (before ++ (nodes, members) ∷ after) out)
        ≡ lookup (member_name h) members
  unfolding renumber_contrib history_offsets nodes_of
  renumber_from-at start h [] nodes members after out ok_before is ok_after lt free =
      renumber_from-below (start + nodes) (h + (start + 0)) after _ ok_after (omega arith)
      ∙ ap (λ n. lookup (member_name n) (renumber_source py start members out)) (shift h)
      ∙ renumber_source-at nodes start h members out is
      ∙ ap (or_else (lookup (member_name h) members)) (free (h + start) (omega arith))
      ∙ or_else-none (lookup (member_name h) members)
    where
      shift : (h : ℕ) → h + (start + 0) ≡ h + start
      shift h = omega arith
  renumber_from-at start h ((n, ms) ∷ before) nodes members after out ok_before is ok_after lt
        free =
      ap
        (λ i. lookup (member_name i) (
          renumber_from (start + n) (before ++ (nodes, members) ∷ after)
            (renumber_source py start ms out)))
        (shift (nodes_of before))
      ∙ renumber_from-at (start + n) h before nodes members after (renumber_source py start ms out)
          ok_before.1 is ok_after lt still_free
    where
      shift : (m : ℕ) → h + (start + (n + m)) ≡ h + (start + n + m)
      shift m = omega arith

      still_free :
          (j : ℕ) → start + n ≤ j → lookup (member_name j) (renumber_source py start ms out) ≡ none
      still_free j le =
          ap (λ i. lookup (member_name i) (renumber_source py start ms out)) back
          ∙ renumber_source-at n start (j - start) ms out ok_before.0
          ∙ ap (λ o. or_else o (lookup (member_name (j - start + start)) out))
              (AreMembers-beyond n (j - start) ms ok_before.0 (omega arith))
          ∙ free (j - start + start) (omega arith)
        where
          back : j ≡ j - start + start
          back = omega arith

  -- Where the members of each source are of different history nodes of that source, the merge keeps each
  -- of them: the member of a node of a source is found under the node's index in the merged history,
  -- where the nodes of the sources before it come first, and with the bytes that it had, and there is
  -- none exactly if the source had none.
  pub renumber_contrib-member_name :
      (before : List (ℕ × Dict Text Bytes)) (nodes : ℕ) (members : Dict Text Bytes)
      (after : List (ℕ × Dict Text Bytes)) (h : ℕ)
      → SourcesOk before
      → AreMembers nodes members
      → SourcesOk after
      → h < nodes
      → lookup
          (member_name (h + nodes_of before))
          (renumber_from 0 (before ++ (nodes, members) ∷ after) [])
        ≡ lookup (member_name h) members
  unfolding lookup
  renumber_contrib-member_name before nodes members after h ok_before is ok_after lt =
      ap
        (λ n.
          lookup (member_name (h + n)) (renumber_from 0 (before ++ (nodes, members) ∷ after) []))
        same
      ∙ renumber_from-at 0 h before nodes members after [] ok_before is ok_after lt (λ j le. refl)
    where
      same : nodes_of before ≡ 0 + nodes_of before
      same = omega arith
