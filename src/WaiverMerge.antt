-- ===== src/WaiverMerge.antt =====
-- python/covsight/core/ncdb/ncdb_merger.py: `_merge_waivers`, on what `json.loads` gives for the sources;
-- a source without the member is none.
pub mod Latest
pub mod Stored
use covsight_core.Prelude.{
  List, [], ◌∷◌, map, Bool, true, false, Option, none, some, Result, ok, ◌>>=◌, if◌then◌else◌,
}
use covsight_core.Prelude.Text.{Text, text_key}
use covsight_core.Prelude.Dict.{Dict, lookup, put}
use covsight_core.Prelude.Json.{
  Json, Items, nil, item, num, arr, obj, end, field, as_fields, as_items, get_or_default, items_of,
}
use covsight_core.Waivers.{text_at, text_less}

-- existing is None or w.get("approved_at", "") > existing.get("approved_at", "")
unfoldable pub replaces : Json → Option Json → Result Bool
replaces w none = ok true
replaces w (some existing) = do
  fs ← as_fields w
  approved_at ← text_at "approved_at" [] fs
  old ← as_fields existing
  approved_before ← text_at "approved_at" [] old
  ok (text_less approved_before approved_at)

-- The body of the inner loop, on one waiver.
unfoldable pub merge_waiver : Dict Text Json → Json → Result (Dict Text Json)
merge_waiver merged w = do
  fs ← as_fields w
  wid ← text_at "id" [] fs
  newer ← replaces w (lookup wid merged)
  ok (if newer then put wid w merged else merged)

unfoldable pub merge_waiver_items : Dict Text Json → Items → Result (Dict Text Json)
merge_waiver_items merged nil = ok merged
merge_waiver_items merged (item w ws) = merge_waiver merged w >>= λ more. merge_waiver_items more ws

-- The outer loop, with `any_found`.
unfoldable pub merge_waiver_sources :
    Bool → Dict Text Json → List (Option Json) → Result (Bool × Dict Text Json)
merge_waiver_sources any_found merged [] = ok (any_found, merged)
merge_waiver_sources any_found merged (none ∷ sources) =
    merge_waiver_sources any_found merged sources
merge_waiver_sources any_found merged (some d ∷ sources) = do
  fs ← as_fields d
  ws ← get_or_default as_items "waivers" nil fs
  more ← merge_waiver_items merged ws
  merge_waiver_sources true more sources

-- list(merged.values())
unfoldable pub values : Dict Text Json → Items
values merged = items_of (λ e. e.1) merged

unfoldable pub merge_waivers : List (Option Json) → Result (Option Json)
merge_waivers sources = do
  (any_found, merged) ← merge_waiver_sources false [] sources
  ok (
      if any_found
      then some (obj (field "format_version" (num 1) (field "waivers" (arr (values merged)) end)))
      else none)
