-- ===== src/ScopeTree/Records.antt =====
-- scope_tree.py: the parts of a record are read back as they were written.
use covsight_core.Prelude.{
  ℕ, ◌≡◌, List, [], ◌∷◌, ◌++◌, not, Option, none, some, ◌==◌, length, get_elem?, bit_and, ok,
  or_raise, arith, refl, ap, map, append_assoc,
}
use covsight_core.Prelude.Text.{Text}
use covsight_core.Varint.{Bytes, encode_nat}
use covsight_core.Varint.RoundTrip.{decode-encode_nat}
use covsight_core.StringTable.{StringTable, add, get}
use covsight_core.StringTable.Interning.{IsTable, add-IsTable}
use covsight_core.ScopeTree.{
  default_at_least, CoverItem, unless, is_some, at_least_field, put_field, put_source, put_items,
  put_coveritems, counts_of,
}
use covsight_core.ScopeTree.Reader.{
  next_count, read_field, or_default, read_source, read_items, read_coveritems,
}
use covsight_core.ScopeTree.Canonical.{kept_source, uniform, kept_items}

-- Every string keeps its index in a later list.
abbrev pub Extends : List Text → List Text → Type 0
Extends xs ys = (i : ℕ) (x : Text) → get_elem? xs i ≡ some x → get_elem? ys i ≡ some x

Extends-trans : (xs ys zs : List Text) → Extends xs ys → Extends ys zs → Extends xs zs
Extends-trans xs ys zs h k i x e = k i x (h i x e)

-- A table that is sound and keeps the strings of an earlier one.
abbrev pub Grows : StringTable → StringTable → Type 0
Grows t t' = IsTable t' × Extends t.strings t'.strings

pub Grows-trans : (t t' t'' : StringTable) → Grows t t' → Grows t' t'' → Grows t t''
Grows-trans t t' t'' h k = (k.0, Extends-trans t.strings t'.strings t''.strings h.1 k.1)

pub add-Grows : (s : Text) (t : StringTable) → IsTable t → Grows t (add (some s) t).1
add-Grows s t h = let added = add-IsTable (some s) t h in (added.0, added.2)

-- The index of an added string is read as that string from any later table.
pub get-add :
    (s : Text) (t T : StringTable)
    → IsTable t
    → Extends (add (some s) t).1.strings T.strings
    → get (add (some s) t).0 T ≡ ok s
unfolding get
get-add s t T h later = ap (or_raise _) (later (add (some s) t).0 s (add-IsTable (some s) t h).1)

pub read_field-put_field :
    (p bit : ℕ) (v : Option ℕ) (buf : Bytes)
    → (bit_and p bit == 0) ≡ not (is_some v)
    → read_field p bit (put_field v ++ buf) ≡ ok (v, buf)
unfolding read_field put_field
read_field-put_field p bit none buf h = rw h
read_field-put_field p bit (some v) buf h = rw (h, decode-encode_nat v buf)

pub put_source-Grows :
    (src : Option (Text × ℕ × ℕ)) (files : StringTable)
    → IsTable files
    → Grows files (put_source src files).1
unfolding put_source
put_source-Grows none files h = (h, λ i x e. e)
put_source-Grows (some (file, line, token)) files h = add-Grows file files h

pub read_source-put_source :
    (p : ℕ) (src : Option (Text × ℕ × ℕ)) (files : StringTable) (F : List Text) (buf : Bytes)
    → IsTable files
    → Extends (put_source src files).1.strings F
    → (bit_and p 0x02 == 0) ≡ not (is_some src)
    → read_source p F ((put_source src files).0 ++ buf) ≡ ok (kept_source src, buf)
unfolding read_source put_source
read_source-put_source p none files F buf table later h = rw h
read_source-put_source p (some (file, line, token)) files F buf table later h = rw (
  h,
  append_assoc (encode_nat (add (some file) files).0) (encode_nat line ++ encode_nat token) buf,
  append_assoc (encode_nat line) (encode_nat token) buf,
  decode-encode_nat (add (some file) files).0 (encode_nat line ++ (encode_nat token ++ buf)),
  decode-encode_nat line (encode_nat token ++ buf),
  decode-encode_nat token buf,
  later (add (some file) files).0 file (add-IsTable (some file) files table).1,
)

pub put_items-Grows :
    (items : List CoverItem) (t : StringTable) → IsTable t → Grows t (put_items items t).1
unfolding put_items
put_items-Grows [] t h = (h, λ i x e. e)
put_items-Grows (ci ∷ items) t h =
    let one = add-Grows ci.name t h in
    Grows-trans t (add (some ci.name) t).1 (put_items items (add (some ci.name) t).1).1 one
      (put_items-Grows items (add (some ci.name) t).1 one.0)

pub put_coveritems-Grows :
    (items : List CoverItem) (t : StringTable) → IsTable t → Grows t (put_coveritems items t).1
unfolding put_coveritems
put_coveritems-Grows [] t h = (h, λ i x e. e)
put_coveritems-Grows (ci ∷ items) t h = put_items-Grows (ci ∷ items) t h

read_items-put_items :
    (items : List CoverItem) (cover_type at_least : ℕ) (t T : StringTable) (buf : Bytes)
    (more : List ℕ)
    → IsTable t
    → Extends (put_items items t).1.strings T.strings
    → read_items
        (length items)
        cover_type
        at_least
        T
        ((put_items items t).0 ++ buf)
        (counts_of items ++ more)
      ≡ ok (map (uniform cover_type at_least) items, buf, more)
unfolding read_items put_items counts_of next_count
read_items-put_items [] cover_type at_least t T buf more table later = refl
read_items-put_items (ci ∷ items) cover_type at_least t T buf more table later =
    let one = add-Grows ci.name t table in
    let t1 = (add (some ci.name) t).1 in
    let rest = put_items-Grows items t1 one.0 in
    rw (
      append_assoc (encode_nat (add (some ci.name) t).0) (put_items items t1).0 buf,
      decode-encode_nat (add (some ci.name) t).0 ((put_items items t1).0 ++ buf),
      get-add ci.name t T table
          (Extends-trans t1.strings (put_items items t1).1.strings T.strings rest.1 later),
      read_items-put_items items cover_type at_least t1 T buf more one.0 later,
    )

or_default-unless : (d v : ℕ) → or_default d (unless d (some v)) ≡ v
unfolding unless
or_default-unless d v = ground arith

-- The counts, the names, and the type and at_least of the first cover item are read back.
pub read_coveritems-put_coveritems :
    (items : List CoverItem) (t T : StringTable) (buf : Bytes) (more : List ℕ)
    → IsTable t
    → Extends (put_coveritems items t).1.strings T.strings
    → read_coveritems
        (length items)
        (at_least_field items)
        T
        ((put_coveritems items t).0 ++ buf)
        (counts_of items ++ more)
      ≡ ok (kept_items items, buf, more)
unfolding read_coveritems put_coveritems at_least_field counts_of
read_coveritems-put_coveritems [] t T buf more table later = refl
read_coveritems-put_coveritems (ci ∷ items) t T buf more table later =
    rw
      (
        append_assoc (encode_nat ci.cover_type) (put_items (ci ∷ items) t).0 buf,
        decode-encode_nat ci.cover_type ((put_items (ci ∷ items) t).0 ++ buf),
        or_default-unless (default_at_least ci.cover_type) ci.at_least,
      )
      (read_items-put_items (ci ∷ items) ci.cover_type ci.at_least t T buf more table later)
