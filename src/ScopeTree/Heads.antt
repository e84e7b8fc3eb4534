-- ===== src/ScopeTree/Heads.antt =====
-- scope_tree.py: the attributes of a record and its cover items, as they are read back.
use covsight_core.Prelude.{
  ℕ, ◌≡◌, List, ◌++◌, Option, none, some, length, Result, ok, ◌>>=◌, ap, arith, refl, append_assoc,
  drop,
}
use covsight_core.Prelude.Int.{ℤ, pos, negsuc}
use covsight_core.Prelude.Text.{Text}
use covsight_core.Varint.{Bytes, encode_nat}
use covsight_core.Varint.RoundTrip.{decode-encode_nat}
use covsight_core.StringTable.{StringTable, add, get}
use covsight_core.StringTable.Interning.{IsTable}
use covsight_core.ScopeTree.{
  ScopeHead, CoverItem, scope, ScopeTreeWriter, flags_field, unless, weight_field, is_some,
  presence, source_field, at_least_field, put_field, put_source, put_coveritems, counts_of,
  source_none, write_regular,
}
use covsight_core.ScopeTree.Reader.{Read, or_default, read_children, read_head, read_regular}
use covsight_core.ScopeTree.Canonical.{kept_weight, kept_head, kept_items}
use covsight_core.ScopeTree.Presence.{presence_of-Tests}
use covsight_core.ScopeTree.Records.{
  Extends, add-Grows, get-add, read_field-put_field, read_source-put_source, put_coveritems-Grows,
  read_coveritems-put_coveritems,
}
use covsight_core.ScopeTree.Advances.{IsWriter}

flags_back : (head : ScopeHead) → or_default 0 (flags_field head) ≡ head.flags
unfolding flags_field
flags_back head = ground arith

default_back : (d : ℕ) (v : Option ℕ) → or_default d (unless d v) ≡ or_default d v
unfolding unless
default_back d none = refl
default_back d (some v) = ground arith

weight_back : (v : Option ℤ) → pos (or_default 1 (weight_field v)) ≡ kept_weight v
unfolding weight_field unless
weight_back none = refl
weight_back (some (pos n)) = ap pos (default_back 1 (some n))
weight_back (some (negsuc n)) = refl

read_head-written :
    (head : ScopeHead) (items : List CoverItem) (n ref : ℕ) (files T : StringTable) (F : List Text)
    (buf : Bytes)
    → IsTable files
    → Extends (put_source (source_field head.source) files).1.strings F
    → get ref T ≡ ok head.name
    → read_head T F (
        encode_nat head.scope_type
        ++ (encode_nat ref
            ++ (encode_nat (presence head items)
                ++ (put_field (flags_field head)
                    ++ ((put_source (source_field head.source) files).0
                        ++ (put_field (weight_field head.weight)
                            ++ (put_field (at_least_field items)
                                ++ (put_field head.goal
                                    ++ (put_field (unless source_none head.source_type)
                                        ++ (encode_nat n
                                            ++ (encode_nat (length items) ++ buf)))))))))))
      ≡ ok (kept_head head, at_least_field items, n, length items, buf)
unfolding read_head presence
read_head-written head items n ref files T F buf table later named =
    let bits =
      presence_of-Tests (is_some (flags_field head)) (is_some (source_field head.source))
        (is_some (weight_field head.weight)) (is_some (at_least_field items)) (is_some head.goal)
        (is_some (unless source_none head.source_type)) in
    rw (
      decode-encode_nat head.scope_type _,
      decode-encode_nat ref _,
      decode-encode_nat (presence head items) _,
      named,
      read_field-put_field _ 0x01 (flags_field head) _ bits.flags_bit,
      read_source-put_source _ (source_field head.source) files F _ table later bits.source_bit,
      read_field-put_field _ 0x04 (weight_field head.weight) _ bits.weight_bit,
      read_field-put_field _ 0x08 (at_least_field items) _ bits.at_least_bit,
      read_field-put_field _ 0x20 head.goal _ bits.goal_bit,
      read_field-put_field _ 0x40 (unless source_none head.source_type) _ bits.source_type_bit,
      decode-encode_nat n _,
      decode-encode_nat (length items) _,
      flags_back head,
      weight_back head.weight,
      default_back source_none head.source_type,
    )

pub read_regular-written :
    (rd : Bytes → List ℕ → Result Read) (head : ScopeHead) (items : List CoverItem) (n : ℕ)
    (w : ScopeTreeWriter) (T : StringTable) (F : List Text) (buf : Bytes) (more : List ℕ)
    → IsWriter w
    → Extends (write_regular head items n w).1.strings.strings T.strings
    → Extends (write_regular head items n w).1.files.strings F
    → read_regular rd T F (drop 1 (write_regular head items n w).0 ++ buf) (counts_of items ++ more)
      ≡ (read_children rd n buf more >>= λ r.
          ok (scope (kept_head head) (kept_items items) r.0, length items, r.1, r.2))
unfolding read_regular write_regular
read_regular-written rd head items n w T F buf more h strings files =
    let t = (add (some head.name) w.strings).1 in
    let named = add-Grows head.name w.strings h.0 in
    let names = put_coveritems-Grows items t named.0 in
    let found = get-add head.name w.strings T h.0 (λ i x e. strings i x (names.1 i x e)) in
    simp (append_assoc) (
      rw
        (
          read_head-written head items n (add (some head.name) w.strings).0 w.files T F
              ((put_coveritems items t).0 ++ buf) h.1 files found,
          read_coveritems-put_coveritems items t T buf more named.0 strings,
        )
        refl)
