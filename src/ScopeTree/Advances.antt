-- ===== src/ScopeTree/Advances.antt =====
-- scope_tree.py: how the writer's tables and counts advance over the walk.
use covsight_core.Prelude.{
  ℕ, ◌≡◌, List, [], ◌∷◌, ◌++◌, true, false, some, length, arith, refl, ap, ◌∙◌, append_assoc,
  Bool-cases, inl, inr, append-nil,
}
use covsight_core.StringTable.{add}
use covsight_core.StringTable.Interning.{IsTable}
use covsight_core.ScopeTree.{
  ScopeHead, CoverItem, Scope, Scopes, scope, no_scopes, scopes, number_of, toggle_names,
  is_toggle_pair, ScopeTreeWriter, write_toggle_pair, source_field, put_coveritems, counts_of,
  write_regular, write_scope, write_scopes,
}
use covsight_core.ScopeTree.Canonical.{own_counts, scope_counts, all_counts}
use covsight_core.ScopeTree.Records.{
  Grows, Grows-trans, add-Grows, put_source-Grows, put_coveritems-Grows,
}

-- The tables of a writer name their positions; a later writer has its strings and files at their places.
abbrev pub IsWriter : ScopeTreeWriter → Type 0
IsWriter w = IsTable w.strings × IsTable w.files

abbrev pub Advances : ScopeTreeWriter → ScopeTreeWriter → Type 0
Advances w w' = Grows w.strings w'.strings × Grows w.files w'.files

pub advance_trans : (w w' w'' : ScopeTreeWriter) → Advances w w' → Advances w' w'' → Advances w w''
advance_trans w w' w'' h k = (
  Grows-trans w.strings w'.strings w''.strings h.0 k.0,
  Grows-trans w.files w'.files w''.files h.1 k.1,
)

write_toggle_pair-Advances :
    (head : ScopeHead) (items : List CoverItem) (w : ScopeTreeWriter)
    → IsWriter w
    → Advances w (write_toggle_pair head items w).1
unfolding write_toggle_pair
write_toggle_pair-Advances head items w h = (add-Grows head.name w.strings h.0, (h.1, λ i x e. e))

pub write_regular-Advances :
    (head : ScopeHead) (items : List CoverItem) (n : ℕ) (w : ScopeTreeWriter)
    → IsWriter w
    → Advances w (write_regular head items n w).1
unfolding write_regular
write_regular-Advances head items n w h =
    let named = add-Grows head.name w.strings h.0 in
    let t = (add (some head.name) w.strings).1 in
    (
      Grows-trans w.strings t (put_coveritems items t).1 named
          (put_coveritems-Grows items t named.0),
      put_source-Grows (source_field head.source) w.files h.1,
    )

-- The two kinds of records.
pub write_scope-pair :
    (head : ScopeHead) (items : List CoverItem) (children : Scopes) (w : ScopeTreeWriter)
    → is_toggle_pair head items children ≡ true
    → write_scope (scope head items children) w ≡ write_toggle_pair head items w
unfolding write_scope
write_scope-pair head items children w h = rw h

pub write_scope-regular :
    (head : ScopeHead) (items : List CoverItem) (children : Scopes) (w : ScopeTreeWriter)
    → is_toggle_pair head items children ≡ false
    → write_scope (scope head items children) w ≡ (
      (write_regular head items (number_of children) w).0
          ++ (write_scopes children (write_regular head items (number_of children) w).1).0,
      (write_scopes children (write_regular head items (number_of children) w).1).1,
    )
unfolding write_scope
write_scope-regular head items children w h = rw h

mutual
  unfolding write_scopes

  pub write_scope-Advances :
      (s : Scope) (w : ScopeTreeWriter) → IsWriter w → Advances w (write_scope s w).1
  write_scope-Advances (scope head items children) w h =
      elim (Bool-cases (is_toggle_pair head items children)) [
        | inl pair ↦
            rw (write_scope-pair head items children w pair)
              (write_toggle_pair-Advances head items w h)
        | inr regular ↦
            let w1 = (write_regular head items (number_of children) w).1 in
            let own = write_regular-Advances head items (number_of children) w h in
            rw (write_scope-regular head items children w regular) (
              advance_trans w w1 (write_scopes children w1).1 own
                (write_scopes-Advances children w1 (own.0.0, own.1.0)))
      ]

  pub write_scopes-Advances :
      (ss : Scopes) (w : ScopeTreeWriter) → IsWriter w → Advances w (write_scopes ss w).1
  write_scopes-Advances no_scopes w h = ((h.0, λ i x e. e), (h.1, λ i x e. e))
  write_scopes-Advances (scopes s ss) w h =
      let first = write_scope-Advances s w h in
      let w1 = (write_scope s w).1 in
      advance_trans w w1 (write_scopes ss w1).1 first
        (write_scopes-Advances ss w1 (first.0.0, first.1.0))

-- A toggle pair has two cover items and no children.
pub pair-children :
    (head : ScopeHead) (items : List CoverItem) (children : Scopes)
    → is_toggle_pair head items children ≡ true
    → (children ≡ no_scopes) × (length items ≡ 2)
unfolding is_toggle_pair number_of toggle_names
pair-children head [] children h = ground arith
pair-children head (a ∷ []) children h = ground arith
pair-children head (a ∷ b ∷ []) no_scopes h = (refl, refl)
pair-children head (a ∷ b ∷ []) (scopes s ss) h = ground arith
pair-children head (a ∷ b ∷ c ∷ items) children h = ground arith

pub counts-pair :
    (head : ScopeHead) (items : List CoverItem) (children : Scopes) (w : ScopeTreeWriter)
    → is_toggle_pair head items children ≡ true
    → (write_toggle_pair head items w).1.counts
      ≡ w.counts ++ scope_counts (scope head items children)
unfolding write_toggle_pair scope_counts own_counts
counts-pair head items children w pair = rw (pair, (pair-children head items children pair).0) refl

mutual
  unfolding write_scopes all_counts own_counts write_regular

  pub write_scope-counts :
      (s : Scope) (w : ScopeTreeWriter) → (write_scope s w).1.counts ≡ w.counts ++ scope_counts s
  write_scope-counts (scope head items children) w =
      elim (Bool-cases (is_toggle_pair head items children)) [
        | inl pair ↦
            rw (write_scope-pair head items children w pair)
              (counts-pair head items children w pair)
        | inr regular ↦ rw (write_scope-regular head items children w regular) (
            write_scopes-counts children (write_regular head items (number_of children) w).1
            ∙ (rw regular (append_assoc w.counts (counts_of items) (all_counts children))))
      ]

  pub write_scopes-counts :
      (ss : Scopes) (w : ScopeTreeWriter) → (write_scopes ss w).1.counts ≡ w.counts ++ all_counts ss
  write_scopes-counts no_scopes w = rw append-nil
  write_scopes-counts (scopes s ss) w =
      write_scopes-counts ss (write_scope s w).1
      ∙ ap (λ cs. cs ++ all_counts ss) (write_scope-counts s w)
      ∙ append_assoc w.counts (scope_counts s) (all_counts ss)
