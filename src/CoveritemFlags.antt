-- ===== src/CoveritemFlags.antt =====
-- python/covsight/core/ncdb/coveritem_flags.py: the flags of cover items that are not those of their
-- type. The walk over the database is the list of its cover items in depth-first order.
pub mod RoundTrip
use covsight_core.Prelude.{
  ℕ, suc, List, [], ◌∷◌, ◌++◌, Bool, not, Result, ok, ◌>>=◌, ◌==◌, if◌then◌else◌, length, any,
}
use covsight_core.Prelude.Int.{pos}
use covsight_core.Varint.{Bytes, encode_varint, decode_varint}
use covsight_core.Deltas.{write_pairs, read_pairs}

pub record CoverItem : Type 0 where
  pub cover_type : ℕ
  pub cover_flags : ℕ

-- The types whose default flags are 0x01, in the order of COVER_TYPE_DEFAULTS.
abbrev pub plain_types : List ℕ
plain_types =
    0x200 ∷ 0x20 ∷ 0x40 ∷ 0x100 ∷ 0x80 ∷ 0x800 ∷ 0x200000 ∷ 0x80000 ∷ 0x100000 ∷ 0x1000000 ∷ 0x2
    ∷ 0x4 ∷ 0x400 ∷ 0x4000 ∷ []

-- `COVER_TYPE_DEFAULTS.get(ct, (0, 0, 1))[0]`; CVGBIN is 0x01.
unfoldable pub default_flags : ℕ → ℕ
default_flags ct = if ct == 0x1 then 0x19 else if any (λ t. t == ct) plain_types then 0x01 else 0

unfoldable pub set_flags : ℕ → CoverItem → CoverItem
set_flags flags ci = record ci { cover_flags = flags }

unfoldable pub flag_entries : ℕ → List CoverItem → List (ℕ × ℕ)
flag_entries index [] = []
flag_entries index (ci ∷ items) =
    let rest = flag_entries (suc index) items in
    if ci.cover_flags == default_flags ci.cover_type then rest else (index, ci.cover_flags) ∷ rest

unfoldable pub write_entries : List (ℕ × ℕ) → Result Bytes
write_entries [] = ok []
write_entries (e ∷ entries) = do
  v ← encode_varint (pos 1)
  n ← encode_varint (pos (length (e ∷ entries)))
  pairs ← write_pairs 0 (e ∷ entries)
  ok (v ++ (n ++ pairs))

unfoldable pub serialize : List CoverItem → Result Bytes
serialize items = write_entries (flag_entries 0 items)

-- The second walk: the next entry, if it is for this item, or the default of its type.
unfoldable pub apply_flags : ℕ → List (ℕ × ℕ) → List CoverItem → List CoverItem
apply_flags index entries [] = []
apply_flags index [] (ci ∷ items) =
    set_flags (default_flags ci.cover_type) ci ∷ apply_flags (suc index) [] items
apply_flags index ((i, flags) ∷ entries) (ci ∷ items) =
    let taken = apply_flags (suc index) entries items in
    let passed = apply_flags (suc index) ((i, flags) ∷ entries) items in
    if i == index
    then set_flags flags ci ∷ taken
    else set_flags (default_flags ci.cover_type) ci ∷ passed

unfoldable pub deserialize : Bytes → List CoverItem → Result (List CoverItem)
deserialize [] items = ok items
deserialize (b ∷ bytes) items = do
  (v, buf) ← decode_varint (b ∷ bytes)
  if not (v == 1) then ok items else (do
    (count, buf') ← decode_varint buf
    if count == 0
        then ok items
        else (do (entries, _) ← read_pairs count 0 buf'; ok (apply_flags 0 entries items)))
