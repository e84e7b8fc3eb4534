-- ===== src/ScopeTree/RoundTrip.antt =====
-- scope_tree.py: what is written is read back, in the form that the format keeps.
use covsight_core.Prelude.{
  ℕ, zero, suc, ◌≤◌, ◌≡◌, List, ◌++◌, true, some, length, ok, arith, refl, append_assoc, drop,
  Bool-cases, inl, inr, length-append,
}
use covsight_core.Prelude.Text.{Text}
use covsight_core.Varint.{Bytes}
use covsight_core.Varint.RoundTrip.{decode-encode_nat}
use covsight_core.StringTable.{StringTable, add}
use covsight_core.ScopeTree.{
  ScopeHead, CoverItem, Scope, Scopes, scope, no_scopes, scopes, number_of, is_toggle_pair,
  ScopeTreeWriter, write_toggle_pair, counts_of, write_regular, write_scope, write_scopes,
}
use covsight_core.ScopeTree.Reader.{
  next_count, read_toggle_pair, read_children, read_regular, read_scope,
}
use covsight_core.ScopeTree.Canonical.{
  kept, kept_all, own_counts, scope_counts, all_counts, own_items, size, size_all,
}
use covsight_core.ScopeTree.Records.{Extends, get-add}
use covsight_core.ScopeTree.Advances.{
  IsWriter, write_regular-Advances, write_scope-pair, write_scope-regular, write_scope-Advances,
  write_scopes-Advances, pair-children,
}
use covsight_core.ScopeTree.Heads.{read_regular-written}

read_scope-regular :
    (fuel : ℕ) (head : ScopeHead) (items : List CoverItem) (n : ℕ) (w : ScopeTreeWriter)
    (T : StringTable) (F : List Text) (buf : Bytes) (counts : List ℕ)
    → read_scope (suc fuel) T F ((write_regular head items n w).0 ++ buf) counts
      ≡ read_regular
          (read_scope fuel T F)
          T
          F
          (drop 1 (write_regular head items n w).0 ++ buf)
          counts
unfolding read_scope write_regular
read_scope-regular fuel head items n w T F buf counts = refl

read_scope-pair :
    (fuel : ℕ) (head : ScopeHead) (items : List CoverItem) (children : Scopes) (w : ScopeTreeWriter)
    (T : StringTable) (F : List Text) (buf : Bytes) (more : List ℕ)
    → is_toggle_pair head items children ≡ true
    → IsWriter w
    → Extends (write_toggle_pair head items w).1.strings.strings T.strings
    → read_scope
        (suc fuel)
        T
        F
        ((write_toggle_pair head items w).0 ++ buf)
        (scope_counts (scope head items children) ++ more)
      ≡ ok (kept (scope head items children), length items, buf, more)
unfolding read_scope write_toggle_pair read_toggle_pair scope_counts own_counts kept next_count
read_scope-pair fuel head items children w T F buf more pair h strings =
    rw
      (
        (pair-children head items children pair).1,
        pair,
        (pair-children head items children pair).0,
        decode-encode_nat (add (some head.name) w.strings).0 buf,
        get-add head.name w.strings T h.0 strings,
      )
      refl

mutual
  unfolding write_scopes read_children scope_counts own_counts kept size number_of

  read_scope-write_scope :
      (s : Scope) (fuel : ℕ) (w : ScopeTreeWriter) (T : StringTable) (F : List Text) (buf : Bytes)
      (more : List ℕ)
      → size s ≤ fuel
      → IsWriter w
      → Extends (write_scope s w).1.strings.strings T.strings
      → Extends (write_scope s w).1.files.strings F
      → read_scope fuel T F ((write_scope s w).0 ++ buf) (scope_counts s ++ more)
        ≡ ok (kept s, own_items s, buf, more)
  read_scope-write_scope (scope head items children) zero w T F buf more enough h strings files =
      absurd (omega arith)
  read_scope-write_scope (scope head items children) (suc fuel) w T F buf more enough h strings
        files =
      elim (Bool-cases (is_toggle_pair head items children)) [
        | inl pair ↦ rw (write_scope-pair head items children w pair) (
            read_scope-pair fuel head items children w T F buf more pair h
              (rw (write_scope-pair head items children w pair) at strings))
        | inr regular ↦
            let w1 = (write_regular head items (number_of children) w).1 in
            let own = write_regular-Advances head items (number_of children) w h in
            let rest = write_scopes-Advances children w1 (own.0.0, own.1.0) in
            let strings' = rw (write_scope-regular head items children w regular) at strings in
            let files' = rw (write_scope-regular head items children w regular) at files in
            rw (
              write_scope-regular head items children w regular,
              regular,
              append_assoc (write_regular head items (number_of children) w).0
                  (write_scopes children w1).0 buf,
              append_assoc (counts_of items) (all_counts children) more,
              read_scope-regular fuel head items (number_of children) w T F
                  ((write_scopes children w1).0 ++ buf)
                  (counts_of items ++ (all_counts children ++ more)),
              read_regular-written (read_scope fuel T F) head items (number_of children) w T F
                  ((write_scopes children w1).0 ++ buf) (all_counts children ++ more) h
                  (λ i x e. strings' i x (rest.0.1 i x e)) (λ i x e. files' i x (rest.1.1 i x e)),
              read_children-write_scopes children fuel w1 T F buf more (omega arith)
                  (own.0.0, own.1.0) strings' files',
            )
      ]

  read_children-write_scopes :
      (ss : Scopes) (fuel : ℕ) (w : ScopeTreeWriter) (T : StringTable) (F : List Text) (buf : Bytes)
      (more : List ℕ)
      → size_all ss ≤ fuel
      → IsWriter w
      → Extends (write_scopes ss w).1.strings.strings T.strings
      → Extends (write_scopes ss w).1.files.strings F
      → read_children
          (read_scope fuel T F)
          (number_of ss)
          ((write_scopes ss w).0 ++ buf)
          (all_counts ss ++ more)
        ≡ ok (kept_all ss, buf, more)
  read_children-write_scopes no_scopes fuel w T F buf more enough h strings files = refl
  read_children-write_scopes (scopes s ss) fuel w T F buf more enough h strings files =
      let w1 = (write_scope s w).1 in
      let first = write_scope-Advances s w h in
      let rest = write_scopes-Advances ss w1 (first.0.0, first.1.0) in
      rw (
        append_assoc (write_scope s w).0 (write_scopes ss w1).0 buf,
        append_assoc (scope_counts s) (all_counts ss) more,
        read_scope-write_scope s fuel w T F ((write_scopes ss w1).0 ++ buf) (all_counts ss ++ more)
            (omega arith) h (λ i x e. strings i x (rest.0.1 i x e))
            (λ i x e. files i x (rest.1.1 i x e)),
        read_children-write_scopes ss fuel w1 T F buf more (omega arith) (first.0.0, first.1.0)
            strings files,
      )

-- Every record takes at least a byte, so the length of the buffer is fuel enough.
mutual
  unfolding write_scopes write_regular write_toggle_pair size

  size-le : (s : Scope) (w : ScopeTreeWriter) → size s ≤ length (write_scope s w).0
  size-le (scope head items children) w = elim (Bool-cases (is_toggle_pair head items children)) [
    | inl pair ↦
        rw (write_scope-pair head items children w pair, (pair-children head items children pair).0)
          (omega arith)
    | inr regular ↦
        rw
          (
            write_scope-regular head items children w regular,
            length-append (write_regular head items (number_of children) w).0
                (write_scopes children (write_regular head items (number_of children) w).1).0,
          )
          (omega (arith, size_all-le children (write_regular head items (number_of children) w).1))
  ]

  size_all-le : (ss : Scopes) (w : ScopeTreeWriter) → size_all ss ≤ length (write_scopes ss w).0
  size_all-le no_scopes w = omega arith
  size_all-le (scopes s ss) w =
      rw (length-append (write_scope s w).0 (write_scopes ss (write_scope s w).1).0)
        (omega (arith, size-le s w, size_all-le ss (write_scope s w).1))
