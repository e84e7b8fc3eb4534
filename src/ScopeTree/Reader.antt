-- ===== src/ScopeTree/Reader.antt =====
-- scope_tree.py: the reader of scope_tree.bin. The calls that it makes on the parent
-- are returned as scopes: the arguments of createScope or createInstance and of setGoal, those of
-- createNextCover, and the calls on the new scope. What the objects do with them is not modelled; a
-- MemFSMScope, for one, ignores the attributes of its state and transition scopes.
-- Nested records take fuel; a record that the fuel does not reach raises `recursion_error`. The link of
-- an instance to its design unit is not modelled.
use covsight_core.Prelude.{
  ℕ, zero, suc, ◌+◌, List, [], ◌∷◌, Option, none, some, ◌==◌, if◌then◌else◌, length, get_elem?,
  bit_and, Result, ok, raise, index_error, recursion_error, ◌>>=◌,
}
use covsight_core.Prelude.Int.{pos}
use covsight_core.Prelude.Text.{Text}
use covsight_core.Varint.{Bytes, decode_varint}
use covsight_core.StringTable.{StringTable, get}
use covsight_core.ScopeTree.{
  scope_marker_toggle_pair, toggle_bin_0_to_1, toggle_bin_1_to_0, type_branch, type_togglebin,
  source_none, default_at_least, SourceInfo, ScopeHead, CoverItem, Scope, Scopes, scope, no_scopes,
  scopes,
}

-- next(counts_iter, 0)
unfoldable pub next_count : List ℕ → ℕ × List ℕ
next_count [] = (0, [])
next_count (n ∷ counts) = (n, counts)

-- A field that is there if a bit of the presence field is set.
unfoldable pub read_field : ℕ → ℕ → Bytes → Result (Option ℕ × Bytes)
read_field presence bit buf =
    if bit_and presence bit == 0
    then ok (none, buf)
    else (decode_varint buf >>= λ v. ok (some v.0, v.1))

abbrev pub or_default : ℕ → Option ℕ → ℕ
or_default default none = default
or_default default (some v) = v

unfoldable pub read_source : ℕ → List Text → Bytes → Result (Option SourceInfo × Bytes)
read_source presence files buf = if bit_and presence 0x02 == 0 then ok (none, buf) else do
  (file_id, buf) ← decode_varint buf
  (line, buf) ← decode_varint buf
  (token, buf) ← decode_varint buf
  ok (some (record { file = get_elem? files file_id; line = pos line; token = pos token }), buf)

unfoldable pub read_items :
    ℕ → ℕ → ℕ → StringTable → Bytes → List ℕ → Result (List CoverItem × Bytes × List ℕ)
read_items zero cover_type at_least strings buf counts = ok ([], buf, counts)
read_items (suc n) cover_type at_least strings buf counts = do
  (name_ref, buf) ← decode_varint buf
  name ← get name_ref strings
  (items, buf, rest) ← read_items n cover_type at_least strings buf (next_count counts).1
  ok (
    record {
      name = name;
      cover_type = cover_type;
      count = (next_count counts).0;
      at_least = at_least;
    }
        ∷ items,
    buf,
    rest,
  )

-- child_cover_type and the cover items, if there are any.
unfoldable pub read_coveritems :
    ℕ → Option ℕ → StringTable → Bytes → List ℕ → Result (List CoverItem × Bytes × List ℕ)
read_coveritems zero at_least_override strings buf counts = ok ([], buf, counts)
read_coveritems (suc n) at_least_override strings buf counts = do
  (ctv, buf) ← decode_varint buf
  read_items (suc n) ctv (or_default (default_at_least ctv) at_least_override) strings buf counts

-- What is read of a record and what is left: the scope, the number of its cover items, buffer, counts.
abbrev pub Read : Type 0
Read = Scope × ℕ × Bytes × List ℕ

unfoldable pub toggle_bin : Text → ℕ → CoverItem
toggle_bin name count = record {
  name = name;
  cover_type = type_togglebin;
  count = count;
  at_least = default_at_least type_togglebin;
}

abbrev pub pair_head : Text → ScopeHead
pair_head name = record {
  scope_type = type_branch;
  name = name;
  flags = 0;
  source = none;
  weight = some (pos 1);
  goal = none;
  source_type = some source_none;
}

unfoldable pub read_toggle_pair : StringTable → Bytes → List ℕ → Result Read
read_toggle_pair strings buf counts = do
  (name_ref, buf) ← decode_varint buf
  name ← get name_ref strings
  let first = next_count counts
  let second = next_count first.1
  ok (
    scope (pair_head name)
        (toggle_bin toggle_bin_0_to_1 first.0 ∷ toggle_bin toggle_bin_1_to_0 second.0 ∷ [])
        no_scopes,
    2,
    buf,
    second.1,
  )

-- `for _ in range(n)`: records read by `read`.
unfoldable pub read_children :
    (Bytes → List ℕ → Result Read) → ℕ → Bytes → List ℕ → Result (Scopes × Bytes × List ℕ)
read_children read zero buf counts = ok (no_scopes, buf, counts)
read_children read (suc n) buf counts = do
  (s, items, buf, counts) ← read buf counts
  (ss, buf, counts) ← read_children read n buf counts
  ok (scopes s ss, buf, counts)

-- The attributes of a regular scope, its at_least override, and the numbers of children and cover items.
unfoldable pub read_head :
    StringTable → List Text → Bytes → Result (ScopeHead × Option ℕ × ℕ × ℕ × Bytes)
read_head strings files buf = do
  (scope_type, buf) ← decode_varint buf
  (name_ref, buf) ← decode_varint buf
  (presence, buf) ← decode_varint buf
  name ← get name_ref strings
  (flags, buf) ← read_field presence 0x01 buf
  (source, buf) ← read_source presence files buf
  (weight, buf) ← read_field presence 0x04 buf
  (at_least_override, buf) ← read_field presence 0x08 buf
  (goal, buf) ← read_field presence 0x20 buf
  (source_type, buf) ← read_field presence 0x40 buf
  (num_children, buf) ← decode_varint buf
  (num_coveritems, buf) ← decode_varint buf
  ok (
    record {
      scope_type = scope_type;
      name = name;
      flags = or_default 0 flags;
      source = source;
      weight = some (pos (or_default 1 weight));
      goal = goal;
      source_type = some (or_default source_none source_type);
    },
    at_least_override,
    num_children,
    num_coveritems,
    buf,
  )

unfoldable pub read_regular :
    (Bytes → List ℕ → Result Read) → StringTable → List Text → Bytes → List ℕ → Result Read
read_regular read strings files buf counts = do
  (head, at_least_override, num_children, num_coveritems, buf) ← read_head strings files buf
  (items, buf, counts) ← read_coveritems num_coveritems at_least_override strings buf counts
  (children, buf, counts) ← read_children read num_children buf counts
  ok (scope head items children, num_coveritems, buf, counts)

unfoldable pub read_scope : ℕ → StringTable → List Text → Bytes → List ℕ → Result Read
read_scope zero strings files buf counts = raise recursion_error
read_scope (suc fuel) strings files [] counts = raise index_error
read_scope (suc fuel) strings files (marker ∷ buf) counts =
    if marker == scope_marker_toggle_pair
    then read_toggle_pair strings buf counts
    else read_regular (read_scope fuel strings files) strings files buf counts

-- The loop of `read`: the scopes that it attaches to the parent, and the total that it returns.
unfoldable pub read_all : ℕ → StringTable → List Text → Bytes → List ℕ → Result (Scopes × ℕ)
read_all zero strings files buf counts = raise recursion_error
read_all (suc fuel) strings files [] counts = ok (no_scopes, 0)
read_all (suc fuel) strings files (b ∷ buf) counts = do
  (s, n, rest, counts') ← read_scope (suc fuel) strings files (b ∷ buf) counts
  (ss, total) ← read_all fuel strings files rest counts'
  ok (scopes s ss, n + total)

unfoldable pub read : StringTable → List Text → Bytes → List ℕ → Result (Scopes × ℕ)
read strings files buf counts = read_all (suc (length buf)) strings files buf counts
