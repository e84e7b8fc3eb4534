-- ===== src/ScopeTree.antt =====
-- python/covsight/core/ncdb/scope_tree.py: the scopes of a database and the writer of scope_tree.bin.
-- A scope is its attributes, its cover items and its children. File handles are their file names, which
-- `_get_file_id` numbers as a string table numbers strings. Weights are of
-- either sign; flags, types, `at_least` and goals are not negative here, and a goal of -1, no goal, is
-- `none`. What is appended to the
-- buffer is returned, beside the tables and the counts.
pub mod Reader
pub mod Canonical
pub mod Presence
pub mod Records
pub mod Advances
pub mod Heads
pub mod RoundTrip
use covsight_core.Prelude.{
  ℕ, zero, suc, ◌+◌, List, [], ◌∷◌, ◌++◌, Bool, true, false, not, ◌&&◌, ◌||◌, Option, none, some,
  ◌==◌, if◌then◌else◌, length, bit_or, Result, ok, guard, value_error, ◌>>◌,
}
use covsight_core.Prelude.Int.{ℤ, pos, negsuc}
use covsight_core.Prelude.Text.{Text, codes, text_same}
use covsight_core.Varint.{Bytes, encode_nat}
use covsight_core.StringTable.{StringTable, empty_table, add}

abbrev pub scope_marker_regular : ℕ
scope_marker_regular = 0

abbrev pub scope_marker_toggle_pair : ℕ
scope_marker_toggle_pair = 1

abbrev pub toggle_bin_0_to_1 : Text
toggle_bin_0_to_1 = codes "0 -> 1"

abbrev pub toggle_bin_1_to_0 : Text
toggle_bin_1_to_0 = codes "1 -> 0"

-- ScopeTypeT.BRANCH, CoverTypeT.TOGGLEBIN, SourceT.NONE
abbrev pub type_branch : ℕ
type_branch = 2

abbrev pub type_togglebin : ℕ
type_togglebin = 0x200

abbrev pub source_none : ℕ
source_none = 10

-- COVER_TYPE_DEFAULTS.get(t, (0, 0, 1))[1]
unfoldable pub default_at_least : ℕ → ℕ
default_at_least t = if t == 1 then 1 else 0

pub record SourceInfo : Type 0 where
  pub file : Option Text
  pub line : ℤ
  pub token : ℤ

pub record ScopeHead : Type 0 where
  pub scope_type : ℕ
  pub name : Text
  pub flags : ℕ
  pub source : Option SourceInfo
  pub weight : Option ℤ
  pub goal : Option ℕ
  pub source_type : Option ℕ

pub record CoverItem : Type 0 where
  pub name : Text
  pub cover_type : ℕ
  pub count : ℕ
  pub at_least : ℕ

mutual
  pub data Scope : Type 0 where
    scope : ScopeHead → List CoverItem → Scopes → Scope

  pub data Scopes : Type 0 where
    no_scopes : Scopes
    scopes : Scope → Scopes → Scopes

unfoldable pub number_of : Scopes → ℕ
number_of no_scopes = 0
number_of (scopes s ss) = suc (number_of ss)

-- The set of the two names is the set of the toggle bins.
unfoldable pub toggle_names : List CoverItem → Bool
toggle_names [] = false
toggle_names (a ∷ []) = false
toggle_names (a ∷ b ∷ []) =
    (text_same a.name toggle_bin_0_to_1 && text_same b.name toggle_bin_1_to_0)
    || (text_same a.name toggle_bin_1_to_0 && text_same b.name toggle_bin_0_to_1)
toggle_names (a ∷ b ∷ c ∷ items) = false

unfoldable pub is_toggle_pair : ScopeHead → List CoverItem → Scopes → Bool
is_toggle_pair head items children =
    head.scope_type == type_branch && (toggle_names items && number_of children == 0)

-- The string table, the file handles with their index, and counts_list.
pub record ScopeTreeWriter : Type 0 where
  pub strings : StringTable
  pub files : StringTable
  pub counts : List ℕ

-- `{ci.getName(): ci …}.get(name)` and its count, 0 where there is none.
unfoldable pub count_named : Text → List CoverItem → ℕ → ℕ
count_named name [] found = found
count_named name (ci ∷ items) found =
    count_named name items (if text_same ci.name name then ci.count else found)

unfoldable pub write_toggle_pair :
    ScopeHead → List CoverItem → ScopeTreeWriter → Bytes × ScopeTreeWriter
write_toggle_pair head items w =
    let (name_ref, strings) = add (some head.name) w.strings in
    (
      scope_marker_toggle_pair ∷ encode_nat name_ref,
      record w {
        strings = strings;
        counts =
            w.counts
            ++ count_named toggle_bin_0_to_1 items 0 ∷ count_named toggle_bin_1_to_0 items 0 ∷ [];
      },
    )

-- Which optional fields a record has, and their values.
unfoldable pub flags_field : ScopeHead → Option ℕ
flags_field head = if head.flags == 0 then none else some head.flags

-- has_src: the file and the line, token as they are written.
abbrev pub at_most_zero : ℤ → ℕ
at_most_zero (pos n) = n
at_most_zero (negsuc n) = 0

unfoldable pub source_field : Option SourceInfo → Option (Text × ℕ × ℕ)
source_field none = none
source_field (some info) = elim info.file [
  | none ↦ none
  | some file ↦ elim info.line [
    | pos line ↦ some (file, line, at_most_zero info.token)
    | negsuc n ↦ none
  ]
]

unfoldable pub unless : ℕ → Option ℕ → Option ℕ
unless default none = none
unless default (some v) = if v == default then none else some v

-- The weight as it is written; at a negative one `encode_varint` raises, see `write_or_raise`.
unfoldable pub weight_field : Option ℤ → Option ℕ
weight_field none = none
weight_field (some (pos n)) = unless 1 (some n)
weight_field (some (negsuc n)) = some 0

unfoldable pub at_least_field : List CoverItem → Option ℕ
at_least_field [] = none
at_least_field (ci ∷ items) = unless (default_at_least ci.cover_type) (some ci.at_least)

abbrev pub is_some {ℓ} : {A : Type ℓ} → Option A → Bool
is_some none = false
is_some (some a) = true

abbrev pub bit_if : Bool → ℕ → ℕ
bit_if b bit = if b then bit else 0

unfoldable pub presence_of : Bool → Bool → Bool → Bool → Bool → Bool → ℕ
presence_of flags source weight at_least goal source_type =
    bit_or
      (bit_or
        (bit_or (bit_or (bit_or (bit_if flags 0x01) (bit_if source 0x02)) (bit_if weight 0x04))
          (bit_if at_least 0x08))
        (bit_if goal 0x20))
      (bit_if source_type 0x40)

unfoldable pub presence : ScopeHead → List CoverItem → ℕ
presence head items =
    presence_of (is_some (flags_field head)) (is_some (source_field head.source))
      (is_some (weight_field head.weight)) (is_some (at_least_field items)) (is_some head.goal)
      (is_some (unless source_none head.source_type))

unfoldable pub put_field : Option ℕ → Bytes
put_field none = []
put_field (some v) = encode_nat v

unfoldable pub put_source : Option (Text × ℕ × ℕ) → StringTable → Bytes × StringTable
put_source none files = ([], files)
put_source (some (file, line, token)) files =
    let (file_id, files') = add (some file) files in
    (encode_nat file_id ++ (encode_nat line ++ encode_nat token), files')

unfoldable pub put_items : List CoverItem → StringTable → Bytes × StringTable
put_items [] strings = ([], strings)
put_items (ci ∷ items) strings =
    let (name_ref, strings1) = add (some ci.name) strings in
    let (rest, strings2) = put_items items strings1 in (encode_nat name_ref ++ rest, strings2)

-- child_cover_type_val and the names, if there are cover items.
unfoldable pub put_coveritems : List CoverItem → StringTable → Bytes × StringTable
put_coveritems [] strings = ([], strings)
put_coveritems (ci ∷ items) strings =
    let (names, strings') = put_items (ci ∷ items) strings in
    (encode_nat ci.cover_type ++ names, strings')

unfoldable pub counts_of : List CoverItem → List ℕ
counts_of [] = []
counts_of (ci ∷ items) = ci.count ∷ counts_of items

-- _write_regular_scope up to its children, of which there are `n`.
unfoldable pub write_regular :
    ScopeHead → List CoverItem → ℕ → ScopeTreeWriter → Bytes × ScopeTreeWriter
write_regular head items n w =
    let (name_ref, strings1) = add (some head.name) w.strings in
    let (src, files) = put_source (source_field head.source) w.files in
    let (names, strings2) = put_coveritems items strings1 in
    (
      scope_marker_regular
          ∷ (encode_nat head.scope_type
              ++ (encode_nat name_ref
                  ++ (encode_nat (presence head items)
                      ++ (put_field (flags_field head)
                          ++ (src
                              ++ (put_field (weight_field head.weight)
                                  ++ (put_field (at_least_field items)
                                      ++ (put_field head.goal
                                          ++ (put_field (unless source_none head.source_type)
                                              ++ (encode_nat n
                                                  ++ (encode_nat (length items) ++ names))))))))))),
      record { strings = strings2; files = files; counts = w.counts ++ counts_of items },
    )

unfoldable mutual
  pub write_scope : Scope → ScopeTreeWriter → Bytes × ScopeTreeWriter
  write_scope (scope head items children) w =
      if is_toggle_pair head items children
      then write_toggle_pair head items w
      else let (own, w1) = write_regular head items (number_of children) w in
        let (rest, w2) = write_scopes children w1 in (own ++ rest, w2)

  pub write_scopes : Scopes → ScopeTreeWriter → Bytes × ScopeTreeWriter
  write_scopes no_scopes w = ([], w)
  write_scopes (scopes s ss) w =
      let (first, w1) = write_scope s w in
      let (rest, w2) = write_scopes ss w1 in (first ++ rest, w2)

-- The walk of the scopes of a database, with a given string table and no file handles, where no call of
-- `encode_varint` raises.
unfoldable pub write : Scopes → StringTable → Bytes × ScopeTreeWriter
write roots strings =
    write_scopes roots (record { strings = strings; files = empty_table; counts = [] })

abbrev pub not_negative : Option ℤ → Bool
not_negative none = true
not_negative (some (pos n)) = true
not_negative (some (negsuc n)) = false

-- Whether `encode_varint` takes the weights of all records; toggle pairs have none.
unfoldable mutual
  pub weights_fit : Scope → Bool
  weights_fit (scope head items children) =
      if is_toggle_pair head items children
      then true
      else not_negative head.weight && all_weights_fit children

  pub all_weights_fit : Scopes → Bool
  all_weights_fit no_scopes = true
  all_weights_fit (scopes s ss) = weights_fit s && all_weights_fit ss

-- `write`, which raises ValueError at the first negative weight that it comes to.
unfoldable pub write_or_raise : Scopes → StringTable → Result (Bytes × ScopeTreeWriter)
write_or_raise roots strings = guard (all_weights_fit roots) value_error >> ok (write roots strings)
