-- ===== src/Contrib.antt =====
-- python/covsight/core/ncdb/contrib.py: the contributions of each test, one member for each history
-- node, and the renumbering of those members in a merge: renumber_contrib of member_merge.py and the
-- offsets that ncdb_merger.py gives it. Python's `int` of a text is the parameter PyInt. What the reader
-- records in the database is the list of its calls of record_test_association.
pub mod Names
pub mod RoundTrip
pub mod Renumber
use covsight_core.Prelude.{
  ℕ, zero, suc, ◌+◌, ◌-◌, ◌≡◌, List, [], ◌∷◌, ◌++◌, map, Bool, true, false, ◌||◌, ◌&&◌, Option,
  none, some, Result, ok, ◌>>=◌, ◌==◌, leb, if◌then◌else◌, length, take, drop,
}
use covsight_core.Prelude.Int.{ℤ, pos, negsuc, add_ℕ}
use covsight_core.Prelude.Text.{Text, codes, decimal, strip_prefix, text_same, text_key}
use covsight_core.Prelude.Dict.{Dict, lookup, put}
use covsight_core.Varint.{Bytes, encode_varint, decode_varint}
use covsight_core.Deltas.{write_pairs, read_pairs}
use covsight_core.MemberMerge.{sorted_entries}

-- `int(text)`, which reads what "%d" writes, or raises ValueError.
pub record PyInt : Type 0 where
  pub int_of : Text → Option ℤ
  pub int_of-decimal : (n : ℕ) → int_of (decimal n) ≡ some (pos n)

-- MEMBER_CONTRIB_DIR
abbrev pub member_contrib_dir : Text
member_contrib_dir = codes "contrib/"

abbrev pub member_suffix : Text
member_suffix = codes ".bin"

-- The name of the member of a history node.
unfoldable pub member_name : ℕ → Text
member_name index = member_contrib_dir ++ (decimal index ++ member_suffix)

-- The body of the loop of ContribWriter.serialize: the bytes of one history node.
unfoldable pub write_member : Dict ℕ ℕ → Result Bytes
write_member bin_counts = do
  count ← encode_varint (pos (length (sorted_entries bin_counts)))
  pairs ← write_pairs 0 (sorted_entries bin_counts)
  ok (count ++ pairs)

-- ContribWriter.serialize, with the members written so far.
unfoldable pub write_members : Dict ℕ (Dict ℕ ℕ) → Dict Text Bytes → Result (Dict Text Bytes)
write_members [] members = ok members
write_members ((hist_idx, []) ∷ per_test) members = write_members per_test members
write_members ((hist_idx, e ∷ bin_counts) ∷ per_test) members = do
  bytes ← write_member (e ∷ bin_counts)
  write_members per_test (put (member_name hist_idx) bytes members)

-- text.rstrip(".bin"): the characters `.`, `b`, `i` and `n` at the end go.
unfoldable pub is_stripped : ℕ → Bool
is_stripped c = c == 46 || (c == 98 || (c == 105 || c == 110))

unfoldable pub rstrip_bin : Text → Text
rstrip_bin [] = []
rstrip_bin (c ∷ cs) =
    let rest = rstrip_bin cs in if is_stripped c && length rest == 0 then [] else c ∷ rest

-- text.split(".")[0]
unfoldable pub before_dot : Text → Text
before_dot [] = []
before_dot (c ∷ cs) = let rest = before_dot cs in if c == 46 then [] else c ∷ rest

-- text[:-len(".bin")] where it ends with ".bin"
unfoldable pub strip_bin : Text → Text
strip_bin t =
    if leb 4 (length t) && text_same (drop (length t - 4) t) member_suffix
    then take (length t - 4) t
    else t

-- "%d" % n
unfoldable pub format_int : ℤ → Text
format_int (pos n) = decimal n
format_int (negsuc n) = 45 ∷ decimal (suc n)

module _ (py : PyInt) where
  -- hist_idx, or none for a member that is skipped.
  unfoldable pub hist_idx_of : Option Text → Option ℤ
  hist_idx_of none = none
  hist_idx_of (some basename) = py.int_of (before_dot (rstrip_bin basename))

  -- The calls that the reader makes for one history node, each with a bin and its count.
  unfoldable pub read_entries : Option ℤ → Bytes → Result (List (ℤ × ℕ × ℕ))
  read_entries none payload = ok []
  read_entries (some hist_idx) payload = do
    (num_entries, buf) ← decode_varint payload
    (entries, _) ← read_pairs num_entries 0 buf
    ok (map (λ (e : ℕ × ℕ). (hist_idx, e.0, e.1)) entries)

  -- The body of the loop of ContribReader.apply.
  unfoldable pub read_member : Text → Bytes → Result (List (ℤ × ℕ × ℕ))
  read_member name payload =
      read_entries (hist_idx_of (strip_prefix member_contrib_dir name)) payload

  -- ContribReader.apply
  unfoldable pub apply : Dict Text Bytes → Result (List (ℤ × ℕ × ℕ))
  apply [] = ok []
  apply ((name, payload) ∷ members) = do
    calls ← read_member name payload
    rest ← apply members
    ok (calls ++ rest)

  -- _contrib_index
  unfoldable pub index_of : Option Text → Option ℤ
  index_of none = none
  index_of (some basename) = py.int_of (strip_bin basename)

  unfoldable pub contrib_index : Text → Option ℤ
  contrib_index name = index_of (strip_prefix member_contrib_dir name)

  -- The body of the loops of renumber_contrib.
  unfoldable pub renumber_member : Option ℤ → ℕ → Bytes → Dict Text Bytes → Dict Text Bytes
  renumber_member none offset payload out = out
  renumber_member (some index) offset payload out =
      put (member_contrib_dir ++ (format_int (add_ℕ index offset) ++ member_suffix)) payload out

  unfoldable pub renumber_source : ℕ → Dict Text Bytes → Dict Text Bytes → Dict Text Bytes
  renumber_source offset [] out = out
  renumber_source offset ((name, payload) ∷ members) out =
      renumber_source offset members (renumber_member (contrib_index name) offset payload out)

  -- renumber_contrib
  unfoldable pub renumber_contrib :
      List (Dict Text Bytes) → List ℕ → Dict Text Bytes → Dict Text Bytes
  renumber_contrib [] offsets out = out
  renumber_contrib (members ∷ sources) [] out = out
  renumber_contrib (members ∷ sources) (offset ∷ offsets) out =
      renumber_contrib sources offsets (renumber_source offset members out)

-- The number of history nodes before those of each source.
unfoldable pub history_offsets : ℕ → List ℕ → List ℕ
history_offsets total [] = []
history_offsets total (nodes ∷ sources) = total ∷ history_offsets (total + nodes) sources
