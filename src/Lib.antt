-- ===== src/Lib.antt =====
-- Verification of the coverage storage of covsight-core: the NCDB archive, which holds the merged hit
-- counts of a verification project, one array of counts per test run, and the indexes beside them.
--
-- The program. An archive is a ZIP file of binary members (python/covsight/core/ncdb). The schema is
-- stored once; `counts.bin` is the baseline and `counts/run-NNNNN.bin` holds the counts of one run;
-- `runs.json` is the table from run ids to members. `merge_ops.bin` names the bins that are merged by
-- their maximum instead of their sum. multirun.py reads, merges, adds and drops runs; squash.py folds
-- runs into the baseline and drops their arrays; squash_log.bin records that, contrib_index.bin and
-- history/bucket_index.bin say which runs may be merged and where test history stands.
--
-- The files, and the code that each models:
--   Varint        varint.py: encode_varint, decode_varint and the bulk functions in pure Python
--   Pack          the fixed-width fields of `struct`, as the members below use them
--   Counts        counts.py: CountsWriter.serialize, CountsReader.deserialize
--   Deltas        the loops over sparse tables that merge_ops.py, coveritem_flags.py, contrib.py and
--                 member_merge.py share
--   MergeOps      merge_ops.py: the table of operations and merge_counts
--   SquashLog     squash_log.py: SquashLog.append, serialize, deserialize
--   BucketIndex   bucket_index.py: add_bucket, the queries, next_seq, serialize, deserialize
--   ContribIndex  contrib_index.py: add_entry, passing_run_ids, remove_entries_up_to, max_run_id,
--                 serialize, deserialize
--   Multirun      multirun.py: RunTable, read_run_table, resolve_counts, _next_member_index, _rewrite
--   Runs          multirun.py: append_runs, drop_runs
--   Squash        squash.py: squash_plan, squash, _policy_admits, _append_log
--   CoveritemFlags  coveritem_flags.py: the writer and the reader of flags that are no defaults
--   StringTable   string_table.py: StringTable.add, serialize, from_bytes
--   TestRegistry  test_registry.py: lookup_name_id, lookup_seed_id, assign_run_id, serialize,
--                 deserialize
--   FormalStatus  python/covsight/core/api/enums/formal_status.py: merge_formal_statuses
--   MemberMerge   member_merge.py: merge_coveritem_flags
--   Contrib       contrib.py: ContribWriter, ContribReader; member_merge.py: renumber_contrib;
--                 ncdb_merger.py: the offsets of merged histories
--   HistoryMerge  ncdb_merger.py: _merge_v2_history for the registry, the contribution index and the
--                 squash log
--   WaiverMerge   ncdb_merger.py: _merge_waivers
--   DbMerger      python/covsight/core/merge/db_merger.py: merge, _merge_children, _merge_items, _group
--   ScopeTree     scope_tree.py: ScopeTreeWriter, ScopeTreeReader; what the format keeps of a scope
--   DfsUtil       dfs_util.py: the walk and the flat index of bins
--   Waivers       waivers.py: Waiver, WaiverSet, _glob_match
--   TestStats     test_stats.py: TestStatsTable.update, _ensure, get
--   Testplan      testplan.py: the classes, to_dict and from_dict, the indexes and queries
--   TestplanClosure  testplan_closure.py: compute_coverage_binding, compute_closure,
--                 stage_gate_status
--   Prelude       what they share: exceptions as values, dictionaries in insertion order, texts as
--                 lists of code points, bits, lists
--   Tests         the theorems at concrete inputs
--
-- Conventions. Bytes are lists of numbers; an offset into a buffer is the list of the bytes from
-- there on. A call that may raise returns a `Result`. An archive is the dictionary of its members; its
-- run table is the list of its entries in order. An object that a method changes is returned changed.
-- The invariant of archives, IsSquashable in Squash/Preserve/Parts, says that the run table can be
-- read, no two runs share an id or a member, every array can be read, the baseline owns `counts.bin`
-- and no other run owns a member that the archive itself uses.
--
-- Fuel. `encode_loop` runs value + 1 rounds, more than the number of 7-bit groups; the search for a
-- free index runs one round more than there are indices in use, and one of so many is free. Reading
-- the goals of a test plan takes the depth of the JSON value as fuel, at least that of its goals.
-- Reading a scope tree takes the length of the buffer plus one: each record has at least a byte.
-- A merge of databases takes one more than the greatest depth of their scopes, one for each level.
-- All other loops recurse on their input.
--
-- Parameters. `json.dumps` and `json.loads` are the record RunsJson: what was dumped is loaded again
-- and is not empty. UTF-8 is the record Utf8: what was encoded is decoded again. The array that
-- `_counts_of` takes from a database is an argument, as are the cover items or their types that the
-- writers of coveritem_flags.bin and merge_ops.bin take from one. The floats of test_stats.py are the
-- record Floats. The closure of a test plan takes what it asks of a database, and fnmatch.
-- Python's `int` of a text is the record PyInt: it reads what "%d" writes.
--
-- Not modelled: which scopes the classes in memory create and what they make of attributes (the
-- scope reader is its calls, and DbMerger takes the creation of scopes as an argument); the
-- statistics and buckets of merged histories; the link of an instance scope to its design unit; the
-- order of members in the ZIP file, the temporary file and the move in `_rewrite`; the C
-- accelerator; floating-point pass rates; the coverage model in memory, its XML, Parquet and
-- Verilator forms, reports and the importers of test plans. In `_MEMBER_RE` and in the seed suffix
-- `_\d+$` a digit is one of 0 to 9.
pub mod Prelude
pub mod Varint
pub mod Pack
pub mod Counts
pub mod Deltas
pub mod DbMerger
pub mod Contrib
pub mod HistoryMerge
pub mod WaiverMerge
pub mod MemberMerge
pub mod SquashLog
pub mod BucketIndex
pub mod ContribIndex
pub mod Multirun
pub mod Squash
pub mod Runs
pub mod MergeOps
pub mod StringTable
pub mod TestRegistry
pub mod TestStats
pub mod ScopeTree
pub mod DfsUtil
pub mod Waivers
pub mod Testplan
pub mod TestplanClosure
pub mod CoveritemFlags
pub mod FormalStatus
pub mod Tests
