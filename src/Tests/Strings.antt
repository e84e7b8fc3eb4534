-- ===== src/Tests/Strings.antt =====
-- String tables and formal status at concrete inputs.
use covsight_core.Prelude.{
  ℕ, sym, ◌≡◌, List, ◌⊎◌, [], ◌∷◌, none, some, ok, refl, All, get_elem?, true, false, ◌&&◌,
}
use covsight_core.Prelude.Text.{Text, codes, text_key}
use covsight_core.Prelude.Dict.{lookup, put}
use covsight_core.Varint.{Bytes}
use covsight_core.StringTable.{Utf8, StringTable, empty_table, add, serialize, from_bytes}
use covsight_core.StringTable.Interning.{IsTable, add-IsTable}
use covsight_core.StringTable.RoundTrip.{empty-IsTable, from_bytes-serialize, IsEncodable}
use covsight_core.TestRegistry.{Request, run, name, seed, new_registry, handle_all}
use covsight_core.TestRegistry.Stable.{IsRegistry, IsLater, handle_all-IsLater}
use covsight_core.FormalStatus.{merge_formal_statuses, formal_status_rank}
use covsight_core.FormalStatus.Merge.{reported, top_rank, merge_formal_statuses-cases}

-- The codec on texts of ASCII characters.
abbrev ascii : Utf8
ascii = record {
  encode = λ s. some s;
  decode = λ bytes. some bytes;
  decode-encode = λ s bytes e. sym e;
}

abbrev one_string : StringTable
one_string = (add none empty_table).1

abbrev two_strings : StringTable
two_strings = (add (some (codes "top")) one_string).1

one_string-IsTable : IsTable one_string
one_string-IsTable = (add-IsTable none empty_table empty-IsTable).0

two_strings-IsTable : IsTable two_strings
two_strings-IsTable = (add-IsTable (some (codes "top")) one_string one_string-IsTable).0

two_strings-All : All (IsEncodable ascii) two_strings.strings
unfolding add lookup put
two_strings-All = (([], refl), ((codes "top", refl), tt))

add-IsTable_example :
    IsTable two_strings
    × (get_elem? two_strings.strings (add (some (codes "top")) one_string).0 ≡ some (codes "top"))
    × ((i : ℕ) (x : Text)
        → get_elem? one_string.strings i ≡ some x
        → get_elem? two_strings.strings i ≡ some x)
    × (add (some (codes "top")) two_strings ≡ add (some (codes "top")) one_string)
add-IsTable_example = add-IsTable (some (codes "top")) one_string one_string-IsTable

from_bytes-serialize_example :
    (bytes : Bytes) × (v : StringTable) × (serialize ascii two_strings ≡ ok bytes)
    × (from_bytes ascii bytes ≡ ok v)
    × (v.strings ≡ two_strings.strings)
    × IsTable v
from_bytes-serialize_example =
    from_bytes-serialize ascii two_strings two_strings-IsTable two_strings-All

merge_formal_statuses-cases_example :
    ((reported 2 (some 2 ∷ none ∷ some 1 ∷ []) && reported 1 (some 2 ∷ none ∷ some 1 ∷ []) ≡ true)
      × (merge_formal_statuses (some 2 ∷ none ∷ some 1 ∷ []) ≡ 6))
    ⊎ ((reported 2 (some 2 ∷ none ∷ some 1 ∷ []) && reported 1 (some 2 ∷ none ∷ some 1 ∷ [])
          ≡ false)
        × (formal_status_rank (some (merge_formal_statuses (some 2 ∷ none ∷ some 1 ∷ [])))
            ≡ top_rank (some 2 ∷ none ∷ some 1 ∷ [])))
merge_formal_statuses-cases_example = merge_formal_statuses-cases (some 2 ∷ none ∷ some 1 ∷ [])

abbrev requests : List Request
requests = name (codes "smoke") ∷ run ∷ seed (codes "42") ∷ name (codes "smoke") ∷ []

new_registry-IsRegistry : IsRegistry (new_registry 5)
unfolding new_registry
new_registry-IsRegistry = (empty-IsTable, empty-IsTable)

handle_all-IsLater_example :
    IsRegistry (handle_all requests (new_registry 5))
    × IsLater (new_registry 5) (handle_all requests (new_registry 5))
handle_all-IsLater_example = handle_all-IsLater requests (new_registry 5) new_registry-IsRegistry
