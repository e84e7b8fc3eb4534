-- ===== src/SquashLog.antt =====
-- python/covsight/core/ncdb/squash_log.py: the append-only trail of squash operations.
pub mod RoundTrip
use covsight_core.Prelude.{
  ℕ, List, [], ◌∷◌, ◌++◌, map, Bool, not, Result, ok, raise, value_error, struct_error, ◌>>=◌, ◌>>◌,
  guard, traverse, ◌==◌, length,
}
use covsight_core.Varint.{Bytes}
use covsight_core.Pack.{pack_table, unpack_fields, unpack_rows}

pub record SquashLogEntry : Type 0 where
  pub ts : ℕ
  pub policy : ℕ
  pub from_run : ℕ
  pub to_run : ℕ
  pub num_runs : ℕ
  pub pass_runs : ℕ

abbrev pub SquashLog : Type 0
SquashLog = List SquashLogEntry

abbrev pub magic : ℕ
magic = 0x53514C47

abbrev pub version : ℕ
version = 1

-- "<IBI" and "<IB3xIIII"; the three pad bytes are a field that holds 0 and is not looked at.
abbrev pub header_layout : List ℕ
header_layout = 4 ∷ 1 ∷ 4 ∷ []

abbrev pub entry_layout : List ℕ
entry_layout = 4 ∷ 1 ∷ 3 ∷ 4 ∷ 4 ∷ 4 ∷ 4 ∷ []

-- SquashLog.append
unfoldable pub append : SquashLogEntry → SquashLog → SquashLog
append entry log = log ++ entry ∷ []

abbrev pub to_row : SquashLogEntry → List ℕ
to_row e = e.ts ∷ e.policy ∷ 0 ∷ e.from_run ∷ e.to_run ∷ e.num_runs ∷ e.pass_runs ∷ []

abbrev pub of_row : List ℕ → Result SquashLogEntry
of_row (ts ∷ policy ∷ pad ∷ from_run ∷ to_run ∷ num_runs ∷ pass_runs ∷ []) = ok (record {
  ts = ts;
  policy = policy;
  from_run = from_run;
  to_run = to_run;
  num_runs = num_runs;
  pass_runs = pass_runs;
})
of_row _ = raise struct_error

unfoldable pub serialize : SquashLog → Result Bytes
serialize log =
    pack_table header_layout (magic ∷ version ∷ length log ∷ []) entry_layout (map to_row log)

-- The checks on the header, and its last field.
unfoldable pub check_header : List ℕ → Result ℕ
check_header (m ∷ v ∷ n ∷ []) = do
  guard (m == magic) value_error
  guard (v == version) value_error
  ok n
check_header _ = raise struct_error

unfoldable pub deserialize : Bytes → Result SquashLog
deserialize buf = do
  (header, rest) ← unpack_fields header_layout buf
  n ← check_header header
  (rows, _) ← unpack_rows entry_layout n rest
  traverse of_row rows
