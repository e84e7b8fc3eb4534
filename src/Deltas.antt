-- ===== src/Deltas.antt =====
-- The sparse tables of python/covsight/core/ncdb: pairs of an index and a value, in which each index
-- is written as its difference from the one before it. merge_ops.py, coveritem_flags.py, contrib.py
-- and member_merge.py hold the same two loops.
pub mod RoundTrip
use covsight_core.Prelude.{ℕ, zero, suc, ◌+◌, List, [], ◌∷◌, ◌++◌, Result, ok, ◌>>=◌}
use covsight_core.Prelude.Int.{pos, sub_ℕ}
use covsight_core.Varint.{Bytes, encode_varint, decode_varint}

unfoldable pub write_pairs : ℕ → List (ℕ × ℕ) → Result Bytes
write_pairs previous [] = ok []
write_pairs previous ((index, value) ∷ entries) = do
  delta ← encode_varint (sub_ℕ index previous)
  bytes ← encode_varint (pos value)
  rest ← write_pairs index entries
  ok (delta ++ (bytes ++ rest))

unfoldable pub read_pairs : ℕ → ℕ → Bytes → Result (List (ℕ × ℕ) × Bytes)
read_pairs zero previous buf = ok ([], buf)
read_pairs (suc count) previous buf = do
  (delta, buf₁) ← decode_varint buf
  (value, buf₂) ← decode_varint buf₁
  (entries, buf₃) ← read_pairs count (previous + delta) buf₂
  ok ((previous + delta, value) ∷ entries, buf₃)
