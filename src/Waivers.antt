-- ===== src/Waivers.antt =====
-- python/covsight/core/ncdb/waivers.py: waivers, their patterns and their set.
-- The regular expression that a pattern is converted to is the list of its pieces, and `re.fullmatch`
-- the search for a way to spell the text by them. Strings are compared by code points.
pub mod Glob
pub mod Spelling
pub mod Pieces
pub mod Segments
pub mod Active
pub mod RoundTrip
use Prim.Native.String.{String}
use covsight_core.Prelude.{
  ℕ, List, [], ◌∷◌, Bool, true, false, not, ◌&&◌, ◌||◌, Option, none, some, ◌==◌, ltb,
  if◌then◌else◌, any, Result, ok, key_error, ◌>>=◌, or_raise,
}
use covsight_core.Prelude.Text.{Text, codes, text_same}
use covsight_core.Prelude.Json.{
  Json, Fields, num, str, arr, obj, end, field, get, as_fields, as_text, get_or_default, items_of,
  read_list,
}
use covsight_core.Waivers.Glob.{glob_match}

pub record Waiver : Type 0 where
  pub id : Text
  pub scope_pattern : Text
  pub bin_pattern : Text
  pub rationale : Text
  pub approver : Text
  pub approved_at : Text
  pub expires_at : Text
  pub status : Text

-- Waiver.matches
unfoldable pub matches : Waiver → Text → Text → Bool
matches w scope_path bin_name =
    if not (glob_match w.scope_pattern scope_path)
    then false
    else if not (text_same bin_name []) && not (text_same w.bin_pattern (codes "*"))
    then glob_match w.bin_pattern bin_name
    else true

abbrev pub WaiverSet : Type 0
WaiverSet = List Waiver

unfoldable pub matches_scope : Text → Text → WaiverSet → Bool
matches_scope scope_path bin_name waivers = any (λ w. matches w scope_path bin_name) waivers

-- a < b for two strings.
abbrev pub text_less : Text → Text → Bool
text_less [] [] = false
text_less [] (b ∷ bs) = true
text_less (a ∷ as') [] = false
text_less (a ∷ as') (b ∷ bs) = ltb a b || (a == b && text_less as' bs)

unfoldable pub is_active : Text → Waiver → Bool
is_active timestamp w =
    text_same w.status (codes "active")
    && (text_same w.expires_at [] || text_less timestamp w.expires_at)

unfoldable pub active_at : Text → WaiverSet → WaiverSet
active_at timestamp [] = []
active_at timestamp (w ∷ ws) =
    let rest = active_at timestamp ws in if is_active timestamp w then w ∷ rest else rest

-- WaiverSet.get
unfoldable pub find : Text → WaiverSet → Option Waiver
find waiver_id [] = none
find waiver_id (w ∷ ws) =
    let rest = find waiver_id ws in if text_same w.id waiver_id then some w else rest

unfoldable pub waiver_to_dict : Waiver → Json
waiver_to_dict w = obj (
    field "id" (str w.id) (
      field "scope_pattern" (str w.scope_pattern) (
        field "bin_pattern" (str w.bin_pattern) (
          field "rationale" (str w.rationale) (
            field "approver" (str w.approver) (
              field "approved_at" (str w.approved_at)
                (field "expires_at" (str w.expires_at) (field "status" (str w.status) end))))))))

unfoldable pub to_dict : WaiverSet → Json
to_dict ws =
    obj (field "format_version" (num 1) (field "waivers" (arr (items_of waiver_to_dict ws)) end))

abbrev pub text_at : String → Text → Fields → Result Text
text_at key default fs = get_or_default as_text key default fs

unfoldable pub waiver_from_dict : Json → Result Waiver
waiver_from_dict d = do
  fs ← as_fields d
  named ← or_raise key_error (get "id" fs)
  id ← as_text named
  scope_pattern ← text_at "scope_pattern" (codes "**") fs
  bin_pattern ← text_at "bin_pattern" (codes "*") fs
  rationale ← text_at "rationale" [] fs
  approver ← text_at "approver" [] fs
  approved_at ← text_at "approved_at" [] fs
  expires_at ← text_at "expires_at" [] fs
  status ← text_at "status" (codes "active") fs
  ok (record {
    id = id;
    scope_pattern = scope_pattern;
    bin_pattern = bin_pattern;
    rationale = rationale;
    approver = approver;
    approved_at = approved_at;
    expires_at = expires_at;
    status = status;
  })

unfoldable pub from_dict : Json → Result WaiverSet
from_dict d = do fs ← as_fields d; get_or_default (read_list waiver_from_dict) "waivers" [] fs
