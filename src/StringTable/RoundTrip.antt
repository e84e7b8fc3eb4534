-- ===== src/StringTable/RoundTrip.antt =====
-- A string table, written and read back.
use mathlib.Core.Option.{some-injective}
use covsight_core.Prelude.{
  ◌≡◌, List, [], ◌∷◌, ◌++◌, none, some, ok, length, take, drop, arith, refl, ap, sym, ◌∙◌, inl, inr,
  Option-cases, append_assoc, append-nil, All,
}
use covsight_core.Prelude.Text.{Text, text_key}
use covsight_core.Prelude.Dict.{lookup}
use covsight_core.Varint.{Bytes, encode_nat, encode_varint}
use covsight_core.Varint.RoundTrip.{decode-encode_nat}
use covsight_core.StringTable.{
  Utf8, StringTable, empty_table, put_strings, serialize, read_strings, from_bytes,
}
use covsight_core.StringTable.Interning.{
  IsTable, extended, add-fresh, add-IsTable, get_elem?-append, get_elem?-length, get_elem?-lt,
}

take-append : (a b : Bytes) → take (length a) (a ++ b) ≡ a
take-append [] b = refl
take-append (x ∷ a) b = ap (◌∷◌ x) (take-append a b)

drop-append : (a b : Bytes) → drop (length a) (a ++ b) ≡ b
drop-append [] b = refl
drop-append (x ∷ a) b = drop-append a b

-- A string that comes next in a table is not yet in its beginning.
pub not_yet :
    (t u : StringTable) (s : Text) (rest : List Text)
    → IsTable t
    → IsTable u
    → t.strings ≡ u.strings ++ s ∷ rest
    → lookup s u.index ≡ none
not_yet t u s rest h k e = elim (Option-cases (lookup s u.index)) [
  | inl missing ↦ missing
  | inr (i, found) ↦
      let at = k.sound s i found in
      let here = h.complete s i (rw e (get_elem?-append u.strings (s ∷ rest) i s at)) in
      let there = h.complete s (length u.strings) (rw e (get_elem?-length u.strings rest s)) in
      absurd (
        omega (
          arith,
          get_elem?-lt u.strings i s at,
          some-injective i (length u.strings) (sym here ∙ there),
        ))
]

pub empty-IsTable : IsTable empty_table
unfolding lookup
empty-IsTable = record { sound = λ s i e. cc e; complete = λ s i e. cc e }

module _ (utf8 : Utf8) where
  -- A string that can be encoded.
  abbrev pub IsEncodable : Text → Type 0
  IsEncodable s = (bytes : Bytes) × (utf8.encode s ≡ some bytes)

  read-put_strings :
      (t : StringTable) (strings : List Text) (u : StringTable)
      → IsTable t
      → IsTable u
      → All IsEncodable strings
      → t.strings ≡ u.strings ++ strings
      → (bytes : Bytes) × (v : StringTable) × (put_strings utf8 strings ≡ ok bytes)
        × (read_strings utf8 (length strings) bytes u ≡ ok v)
        × (v.strings ≡ t.strings)
        × IsTable v
  unfolding put_strings read_strings encode_varint
  read-put_strings t [] u h k c e = ([], u, refl, refl, sym (e ∙ append-nil u.strings), k)
  read-put_strings t (s ∷ strings) u h k c e =
      let fresh = not_yet t u s strings h k e in
      let u' = extended s u in
      let k' : IsTable u' = rw (add-fresh (some s) u fresh) at (add-IsTable (some s) u k).0 in
      let (bytes, v, p, q, same, is) =
        read-put_strings t strings u' h k' c.1
          (e ∙ sym (append_assoc u.strings (s ∷ []) strings)) in
      let (encoded, enc) = c.0 in
      (
        encode_nat (length encoded) ++ (encoded ++ bytes),
        v,
        rw (enc, p) refl,
        rw
            (
              decode-encode_nat (length encoded) (encoded ++ bytes),
              take-append encoded bytes,
              utf8.decode-encode s encoded enc,
              drop-append encoded bytes,
              add-fresh (some s) u fresh,
            )
            q,
        same,
        is,
      )

  -- A table whose dictionary names its positions and whose strings can be encoded is written, and what
  -- was written is read back as a table of that kind with the same strings in the same places.
  pub from_bytes-serialize :
      (t : StringTable)
      → IsTable t
      → All IsEncodable t.strings
      → (bytes : Bytes) × (v : StringTable) × (serialize utf8 t ≡ ok bytes)
        × (from_bytes utf8 bytes ≡ ok v)
        × (v.strings ≡ t.strings)
        × IsTable v
  unfolding serialize from_bytes encode_varint
  from_bytes-serialize t h c =
      let (bytes, v, p, q, same, is) =
        read-put_strings t t.strings empty_table h empty-IsTable c refl in
      (
        encode_nat (length t.strings) ++ bytes,
        v,
        rw p refl,
        rw (decode-encode_nat (length t.strings) bytes) q,
        same,
        is,
      )
