-- ===== src/Squash/Preserve.antt =====
-- What a squash does to the merged counts of an archive.
mod Parts
mod Split
mod Folded
mod After
pub use Parts.{
  IsOwned, IsSquashable, IsBase, baseline_arrays-total, merge_all-IsMerge, owned_reserved,
  owned_baseline, lookup-put_ne, read_run_table-rewrite, array-cong, read_counts-cong,
}
pub use Folded.{IsFolded, written, members_apart}
pub use After.{written-IsSquashable, resolve_counts-written}
