-- ===== src/StringTable.antt =====
-- python/covsight/core/ncdb/string_table.py: strings stored once and named by their index.
-- `str.encode("utf-8")` and `bytes.decode("utf-8")` are the parameter `Utf8`.
pub mod Interning
pub mod RoundTrip
use covsight_core.Prelude.{
  ℕ, zero, suc, List, [], ◌∷◌, ◌++◌, Option, none, some, ◌≡◌, Result, ok, raise, unicode_error,
  index_error, ◌>>=◌, or_raise, length, take, drop, get_elem?,
}
use covsight_core.Prelude.Int.{pos}
use covsight_core.Prelude.Text.{Text, text_key}
use covsight_core.Prelude.Dict.{Dict, lookup, put}
use covsight_core.Varint.{Bytes, encode_varint, decode_varint}

-- The codec, `none` where it raises; what was encoded is decoded again.
pub record Utf8 : Type 0 where
  pub encode : Text → Option Bytes
  pub decode : Bytes → Option Text
  pub decode-encode : (s : Text) (bytes : Bytes) → encode s ≡ some bytes → decode bytes ≡ some s

pub record StringTable : Type 0 where
  pub strings : List Text
  pub index : Dict Text ℕ

abbrev pub empty_table : StringTable
empty_table = record { strings = []; index = [] }

-- `if s is None: s = ""`
abbrev pub text_of : Option Text → Text
text_of none = []
text_of (some s) = s

unfoldable pub add : Option Text → StringTable → ℕ × StringTable
add s t = elim (lookup (text_of s) t.index) [
  | some idx ↦ (idx, t)
  | none ↦ (
    length t.strings,
    record {
      strings = t.strings ++ text_of s ∷ [];
      index = put (text_of s) (length t.strings) t.index;
    },
  )
]

unfoldable pub get : ℕ → StringTable → Result Text
get idx t = or_raise index_error (get_elem? t.strings idx)

module _ (utf8 : Utf8) where
  unfoldable pub put_strings : List Text → Result Bytes
  put_strings [] = ok []
  put_strings (s ∷ strings) = do
    encoded ← or_raise unicode_error (utf8.encode s)
    n ← encode_varint (pos (length encoded))
    rest ← put_strings strings
    ok (n ++ (encoded ++ rest))

  unfoldable pub serialize : StringTable → Result Bytes
  serialize t = do
    n ← encode_varint (pos (length t.strings))
    rest ← put_strings t.strings
    ok (n ++ rest)

  unfoldable pub read_strings : ℕ → Bytes → StringTable → Result StringTable
  read_strings zero buf t = ok t
  read_strings (suc count) buf t = do
    (n, rest) ← decode_varint buf
    s ← or_raise unicode_error (utf8.decode (take n rest))
    read_strings count (drop n rest) (add (some s) t).1

  unfoldable pub from_bytes : Bytes → Result StringTable
  from_bytes buf = do (count, rest) ← decode_varint buf; read_strings count rest empty_table
