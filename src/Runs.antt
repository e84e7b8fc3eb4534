-- ===== src/Runs.antt =====
-- python/covsight/core/ncdb/multirun.py: adding runs to an archive and dropping them.
-- Of a database the code takes only its flat count array, so that array stands for it.
pub mod Drop
use covsight_core.Prelude.{
  ℕ, List, [], ◌∷◌, ◌++◌, Bool, true, false, not, ◌&&◌, ◌||◌, Option, none, some, Result, ok, raise,
  value_error, run_table_error, file_exists_error, ◌>>=◌, ◌>>◌, guard, or_raise, ◌==◌,
  if◌then◌else◌, length,
}
use covsight_core.Prelude.Text.{Text, codes, text_same, text_key, zero_padded}
use covsight_core.Prelude.Dict.{lookup, put, pop}
use covsight_core.Varint.{Bytes}
use covsight_core.Counts
use covsight_core.Multirun.{
  Archive, RunEntry, RunTable, RunsJson, member_counts, baseline_run_id, run_ids, get, contains,
  upsert, run_member_name, next_member_index, is_nil, read_run_table, rewrite,
}
use covsight_core.Squash.{keep_if, among}

-- A run to add: `(run_id, db, counts, fields)`.
pub record NewRun : Type 0 where
  pub run_id : Option Text
  pub db : Option (List ℕ)
  pub counts : Option (List ℕ)
  pub status : Option Text
  pub rerun : Bool

unfoldable pub counts_of : NewRun → Result (List ℕ)
counts_of run = elim run.counts [ some counts ↦ ok counts | none ↦ or_raise value_error run.db ]

-- "run-%04d" of the number of runs that are not the baseline.
unfoldable pub run_name : NewRun → RunTable → Text
run_name run t = elim run.run_id [
  | some run_id ↦ run_id
  | none ↦
      codes "run-"
      ++ zero_padded 4 (length (keep_if (λ r. not (text_same r baseline_run_id)) (run_ids t)))
]

unfoldable pub baseline_width : Archive → Result ℕ
baseline_width a = do
  counts ← Counts.deserialize (elim (lookup member_counts a) [ none ↦ [] | some bytes ↦ bytes ])
  ok (length counts)

-- The state of the loop: the table, the new members, the claimed indices and the written ids.
pub record Adding : Type 0 where
  pub table : RunTable
  pub new_members : Archive
  pub claimed : List ℕ
  pub written : List Text

-- The member of a run: the one that it has, unless that is the baseline's, or a new one.
unfoldable pub member_for : Option RunEntry → Adding → Text × List ℕ
member_for existing s =
    let index = next_member_index s.table s.claimed in
    let fresh : Text × List ℕ = (run_member_name index, index ∷ s.claimed) in
    elim existing [
      | none ↦ fresh
      | some e ↦ if text_same e.member member_counts then fresh else (e.member, s.claimed)
    ]

unfoldable pub append_one : ℕ → Bool → NewRun → Adding → Result Adding
append_one width replace run s = do
  counts ← counts_of run
  guard (width == 0 || length counts == width) value_error
  let run_id = run_name run s.table
  guard (not (contains s.table run_id) || replace) file_exists_error
  let (member, claimed) = member_for (get s.table run_id) s
  bytes ← Counts.serialize counts
  ok (record {
    table =
        upsert
          (record {
            run_id = run_id;
            member = member;
            status = run.status;
            rerun = run.rerun;
            nonzero = length (keep_if (λ c. not (c == 0)) counts);
          })
          s.table;
    new_members = put member bytes s.new_members;
    claimed = claimed;
    written = s.written ++ run_id ∷ [];
  })

unfoldable pub append_all : ℕ → Bool → List NewRun → Adding → Result Adding
append_all width replace [] s = ok s
append_all width replace (run ∷ runs) s = do
  s' ← append_one width replace run s
  append_all width replace runs s'

-- The entries that stay, and the members without those of the entries that go.
unfoldable pub keep_runs : List Text → RunTable → RunTable
keep_runs to_drop t = keep_if (λ e. not (among to_drop e.run_id)) t

unfoldable pub drop_members : Archive → List Text → RunTable → Archive
drop_members a to_drop [] = a
drop_members a to_drop (e ∷ t) =
    drop_members
      (if among to_drop e.run_id && not (text_same e.member member_counts)
        then pop e.member a
        else a)
      to_drop t

module _ (json : RunsJson) where
  unfoldable pub append_runs : Archive → List NewRun → Bool → Result (List Text × Archive)
  append_runs a runs replace = do
    t ← read_run_table json a
    width ← baseline_width a
    s ←
        append_all width replace runs
          (record { table = t; new_members = []; claimed = []; written = [] })
    ok (s.written, rewrite json a s.new_members s.table)

  unfoldable pub drop_runs : Archive → List Text → Result (List Text × Archive)
  drop_runs a to_drop = do
    t ← read_run_table json a
    let remaining = keep_runs to_drop t
    guard (not (is_nil remaining)) run_table_error
    ok (run_ids remaining, rewrite json (drop_members a to_drop t) [] remaining)
