-- ===== src/TestRegistry/RoundTrip.antt =====
-- test_registry.py: a registry is read back from its bytes.
use mathlib.Core.Path.{subst}
use covsight_core.Prelude.{
  ℕ, suc, ◌+◌, ◌<◌, ◌≡◌, ◌≢◌, ◌^◌, List, [], ◌∷◌, ◌++◌, some, ok, traverse, length, replicate, All,
  arith, refl, ap, sym, ◌∙◌, append-nil, append_assoc, drop-length-append, length-append,
  length-replicate,
}
use covsight_core.Prelude.Text.{Text}
use covsight_core.Varint.{Bytes}
use covsight_core.Pack.RoundTrip.{Fits, row_bytes, pack_fields-row, unpack_fields-row}
use covsight_core.StringTable.{Utf8, StringTable, empty_table}
use covsight_core.StringTable.Interning.{IsTable, extended, add-fresh, add-IsTable}
use covsight_core.StringTable.RoundTrip.{not_yet, empty-IsTable}
use covsight_core.TestRegistry.Stable.{IsRegistry}
use covsight_core.TestRegistry.{TestRegistry}
use covsight_core.TestRegistry.Bytes.{
  magic, version, header_layout, heap, offsets, until_zero, table_of, enumerate_strings, encode_all,
  serialize, check_header, read_string, heap_size, deserialize,
}

abbrev pub NoZero : Bytes → Type 0
NoZero e = All (λ b. b ≢ 0) e

until_zero-append : (e rest : Bytes) → NoZero e → until_zero (e ++ 0 ∷ rest) ≡ some e
unfolding until_zero
until_zero-append [] rest h = refl
until_zero-append (b ∷ e) rest h = ground (arith, until_zero-append e rest h.1)

length-offsets : (off : ℕ) (es : List Bytes) → length (offsets off es) ≡ length es
unfolding offsets
length-offsets off [] = refl
length-offsets off (e ∷ es) = ap suc (length-offsets (off + suc (length e)) es)

offsets-Fits :
    (off : ℕ) (es : List Bytes)
    → off + length (heap es) < 256 ^ 4
    → Fits (replicate (length es) 4) (offsets off es)
unfolding offsets heap
offsets-Fits off [] h = tt
offsets-Fits off (e ∷ es) h = (
  omega (arith, length-append e (0 ∷ heap es)),
  offsets-Fits (off + suc (length e)) es (omega (arith, length-append e (0 ∷ heap es))),
)

-- The dictionary of a table of strings, built again from the strings.
enumerate-IsTable :
    (t : StringTable) (strings : List Text) (u : StringTable)
    → IsTable t
    → IsTable u
    → t.strings ≡ u.strings ++ strings
    → IsTable (record {
      strings = t.strings;
      index = enumerate_strings (length u.strings) strings u.index;
    })
unfolding enumerate_strings
enumerate-IsTable t [] u h k e =
    subst (λ strings. IsTable (record { strings = strings; index = u.index }))
      (sym (e ∙ append-nil u.strings)) k
enumerate-IsTable t (s ∷ strings) u h k e =
    let fresh = not_yet t u s strings h k e in
    let k' : IsTable (extended s u) =
      rw (add-fresh (some s) u fresh) at (add-IsTable (some s) u k).0 in
    let more =
      enumerate-IsTable t strings (extended s u) h k'
        (e ∙ sym (append_assoc u.strings (s ∷ []) strings)) in
    let size : length (u.strings ++ s ∷ []) ≡ suc (length u.strings) =
      omega (arith, length-append u.strings (s ∷ [])) in
    rw size at more

table_of-IsTable : (t : StringTable) → IsTable t → IsTable (table_of t.strings)
table_of-IsTable t h = enumerate-IsTable t t.strings empty_table h empty-IsTable refl

module _ (utf8 : Utf8) where
  -- The encodings of some strings, none of which holds a zero byte.
  abbrev pub AreEncodings : List Text → List Bytes → Type 0
  AreEncodings [] [] = Unit
  AreEncodings [] (e ∷ es) = ⊥
  AreEncodings (s ∷ strings) [] = ⊥
  AreEncodings (s ∷ strings) (e ∷ es) =
      (utf8.encode s ≡ some e) × NoZero e × AreEncodings strings es

  encode_all-ok :
      (strings : List Text) (es : List Bytes)
      → AreEncodings strings es
      → encode_all utf8 strings ≡ ok es
  unfolding encode_all
  encode_all-ok [] [] h = refl
  encode_all-ok [] (e ∷ es) h = absurd h
  encode_all-ok (s ∷ strings) [] h = absurd h
  encode_all-ok (s ∷ strings) (e ∷ es) (enc, clean, more) =
      rw (enc, encode_all-ok strings es more) refl

  heap_size-ok :
      (strings : List Text) (es : List Bytes)
      → AreEncodings strings es
      → heap_size utf8 strings ≡ ok (length (heap es))
  unfolding heap_size heap
  heap_size-ok [] [] h = refl
  heap_size-ok [] (e ∷ es) h = absurd h
  heap_size-ok (s ∷ strings) [] h = absurd h
  heap_size-ok (s ∷ strings) (e ∷ es) (enc, clean, more) =
      rw (enc, heap_size-ok strings es more) (ap ok (omega (arith, length-append e (0 ∷ heap es))))

  read_string-ok :
      (s : Text) (e front rest : Bytes)
      → utf8.encode s ≡ some e
      → NoZero e
      → read_string utf8 (front ++ (e ++ 0 ∷ rest)) (length front) ≡ ok s
  unfolding read_string
  read_string-ok s e front rest enc clean =
      rw
        (
          drop-length-append front (e ++ 0 ∷ rest),
          until_zero-append e rest clean,
          utf8.decode-encode s e enc,
        )
        refl

  -- What is read at the offsets of the strings behind some bytes.
  read-heap :
      (strings : List Text) (es : List Bytes) (front rest : Bytes)
      → AreEncodings strings es
      → traverse (read_string utf8 (front ++ (heap es ++ rest))) (offsets (length front) es)
        ≡ ok strings
  unfolding heap offsets
  read-heap [] [] front rest h = refl
  read-heap [] (e ∷ es) front rest h = absurd h
  read-heap (s ∷ strings) [] front rest h = absurd h
  read-heap (s ∷ strings) (e ∷ es) front rest (enc, clean, more) =
      let front' = front ++ (e ++ 0 ∷ []) in
      let later = read-heap strings es front' rest more in
      let same : front' ++ (heap es ++ rest) ≡ front ++ (e ++ 0 ∷ (heap es ++ rest)) =
        simp (append_assoc) refl in
      let same' : front ++ ((e ++ 0 ∷ heap es) ++ rest) ≡ front ++ (e ++ 0 ∷ (heap es ++ rest)) =
        simp (append_assoc) refl in
      let size : length front' ≡ length front + suc (length e) =
        omega (arith, length-append front (e ++ 0 ∷ []), length-append e (0 ∷ [])) in
      let first = read_string-ok s e front (heap es ++ rest) enc clean in
      ap
        (λ base.
          traverse (read_string utf8 base)
            (length front ∷ offsets (length front + suc (length e)) es))
        same'
      ∙ rw (first, rw (same, size) at later) refl

  -- A registry whose dictionaries name the positions of its strings, and whose strings have the given
  -- encodings, none of which holds a zero byte, is written and then read back, where the next run id,
  -- the two counts of strings and the sizes of the two heaps are below 2 ^ 32: what is read has the
  -- next run id and the strings of what was written, in the same order, and its dictionaries name the
  -- positions of its strings.
  pub deserialize-serialize-IsRegistry :
      (reg : TestRegistry) (names seeds : List Bytes)
      → IsRegistry reg
      → AreEncodings reg.names.strings names
      → AreEncodings reg.seeds.strings seeds
      → reg.next_run_id < 256 ^ 4
      → length names < 256 ^ 4
      → length seeds < 256 ^ 4
      → length (heap names) < 256 ^ 4
      → length (heap seeds) < 256 ^ 4
      → (bytes : Bytes) × (later : TestRegistry) × (serialize utf8 reg ≡ ok bytes)
        × (deserialize utf8 bytes ≡ ok later)
        × (later.next_run_id ≡ reg.next_run_id)
        × (later.names.strings ≡ reg.names.strings)
        × (later.seeds.strings ≡ reg.seeds.strings)
        × IsRegistry later
  unfolding serialize deserialize check_header
  deserialize-serialize-IsRegistry reg names seeds is hn hs run cn cs sn ss =
      let header = magic ∷ version ∷ reg.next_run_id ∷ length names ∷ length seeds ∷ [] in
      let fits : Fits header_layout header = (omega arith, (omega arith, (run, (cn, (cs, tt))))) in
      let name_fits = offsets-Fits 0 names (omega arith) in
      let seed_fits = offsets-Fits 0 seeds (omega arith) in
      let name_ids = row_bytes (replicate (length names) 4) (offsets 0 names) in
      let seed_ids = row_bytes (replicate (length seeds) 4) (offsets 0 seeds) in
      let rest = heap names ++ heap seeds in
      let nl : length (offsets 0 names) ≡ length (replicate (length names) 4) =
        length-offsets 0 names ∙ sym (length-replicate (length names) 4) in
      let sl : length (offsets 0 seeds) ≡ length (replicate (length seeds) 4) =
        length-offsets 0 seeds ∙ sym (length-replicate (length seeds) 4) in
      let name_step =
        unpack_fields-row (replicate (length names) 4) (offsets 0 names) (seed_ids ++ rest) nl
          name_fits in
      let seed_step =
        unpack_fields-row (replicate (length seeds) 4) (offsets 0 seeds) rest sl seed_fits in
      (
        row_bytes header_layout header ++ (name_ids ++ (seed_ids ++ rest)),
        record {
          next_run_id = reg.next_run_id;
          names = table_of reg.names.strings;
          seeds = table_of reg.seeds.strings;
        },
        rw
            (
              encode_all-ok reg.names.strings names hn,
              encode_all-ok reg.seeds.strings seeds hs,
              pack_fields-row header_layout header fits,
              pack_fields-row (replicate (length names) 4) (offsets 0 names) name_fits,
              pack_fields-row (replicate (length seeds) 4) (offsets 0 seeds) seed_fits,
            )
            refl,
        rw
            (
              unpack_fields-row header_layout header (name_ids ++ (seed_ids ++ rest)) refl fits,
              name_step,
              seed_step,
              read-heap reg.names.strings names [] (heap seeds) hn,
              heap_size-ok reg.names.strings names hn,
              drop-length-append (heap names) (heap seeds),
              rw (append-nil (heap seeds)) at (read-heap reg.seeds.strings seeds [] [] hs),
            )
            refl,
        refl,
        refl,
        refl,
        (table_of-IsTable reg.names is.0, table_of-IsTable reg.seeds is.1),
      )
