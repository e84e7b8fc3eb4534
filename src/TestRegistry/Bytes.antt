-- ===== src/TestRegistry/Bytes.antt =====
-- test_registry.py: the bytes of test_registry.bin, a header, two tables of offsets and two heaps of
-- strings that each end with a zero byte.
use covsight_core.Prelude.{
  ℕ, suc, ◌+◌, List, [], ◌∷◌, ◌++◌, Option, none, some, Result, ok, raise, value_error,
  struct_error, unicode_error, ◌>>=◌, ◌>>◌, guard, or_raise, traverse, ◌==◌, if◌then◌else◌, length,
  drop, replicate,
}
use covsight_core.Prelude.Text.{Text, text_key}
use covsight_core.Prelude.Dict.{Dict, put}
use covsight_core.Varint.{Bytes}
use covsight_core.Pack.{pack_fields, unpack_fields}
use covsight_core.StringTable.{Utf8, StringTable}
use covsight_core.TestRegistry.{TestRegistry}

abbrev pub magic : ℕ
magic = 0x54535452

abbrev pub version : ℕ
version = 1

-- "<IBIII"
abbrev pub header_layout : List ℕ
header_layout = 4 ∷ 1 ∷ 4 ∷ 4 ∷ 4 ∷ []

unfoldable pub heap : List Bytes → Bytes
heap [] = []
heap (e ∷ es) = e ++ 0 ∷ heap es

unfoldable pub offsets : ℕ → List Bytes → List ℕ
offsets off [] = []
offsets off (e ∷ es) = off ∷ offsets (off + suc (length e)) es

-- data[start:data.index(b"\x00", start)]
unfoldable pub until_zero : Bytes → Option Bytes
until_zero [] = none
until_zero (b ∷ bytes) =
    let more = until_zero bytes in
    if b == 0 then some [] else elim more [ none ↦ none | some rest ↦ some (b ∷ rest) ]

-- {s: i for i, s in enumerate(strings)}
unfoldable pub enumerate_strings : ℕ → List Text → Dict Text ℕ → Dict Text ℕ
enumerate_strings i [] d = d
enumerate_strings i (s ∷ strings) d = enumerate_strings (suc i) strings (put s i d)

abbrev pub table_of : List Text → StringTable
table_of strings = record { strings = strings; index = enumerate_strings 0 strings [] }

module _ (utf8 : Utf8) where
  unfoldable pub encode_all : List Text → Result (List Bytes)
  encode_all strings = traverse (λ s. or_raise unicode_error (utf8.encode s)) strings

  unfoldable pub serialize : TestRegistry → Result Bytes
  serialize reg = do
    names ← encode_all reg.names.strings
    seeds ← encode_all reg.seeds.strings
    header ←
        pack_fields header_layout
          (magic ∷ version ∷ reg.next_run_id ∷ length names ∷ length seeds ∷ [])
    name_offsets ← pack_fields (replicate (length names) 4) (offsets 0 names)
    seed_offsets ← pack_fields (replicate (length seeds) 4) (offsets 0 seeds)
    ok (header ++ (name_offsets ++ (seed_offsets ++ (heap names ++ heap seeds))))

  -- The checks on the header, and its last three fields.
  unfoldable pub check_header : List ℕ → Result (ℕ × ℕ × ℕ)
  check_header (m ∷ v ∷ next_run_id ∷ num_names ∷ num_seeds ∷ []) = do
    guard (m == magic) value_error
    guard (v == version) value_error
    ok (next_run_id, num_names, num_seeds)
  check_header other = raise struct_error

  -- _read_string, on the bytes from the base of the heap on.
  unfoldable pub read_string : Bytes → ℕ → Result Text
  read_string base offset = do
    bytes ← or_raise value_error (until_zero (drop offset base))
    or_raise unicode_error (utf8.decode bytes)

  unfoldable pub heap_size : List Text → Result ℕ
  heap_size [] = ok 0
  heap_size (s ∷ strings) = do
    encoded ← or_raise unicode_error (utf8.encode s)
    rest ← heap_size strings
    ok (suc (length encoded) + rest)

  unfoldable pub deserialize : Bytes → Result TestRegistry
  deserialize buf = do
    (header, buf) ← unpack_fields header_layout buf
    (next_run_id, num_names, num_seeds) ← check_header header
    (name_offsets, buf) ← unpack_fields (replicate num_names 4) buf
    (seed_offsets, base) ← unpack_fields (replicate num_seeds 4) buf
    names ← traverse (read_string base) name_offsets
    name_heap_size ← heap_size names
    seeds ← traverse (read_string (drop name_heap_size base)) seed_offsets
    ok (record { next_run_id = next_run_id; names = table_of names; seeds = table_of seeds })
