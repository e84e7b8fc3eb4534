-- ===== src/Testplan/Dicts.antt =====
-- testplan.py: the dictionaries that plans are written to and read from.
-- `_goal_from_dict` recurses on the nesting of the goals and takes fuel; a goal that the fuel does not
-- reach raises `recursion_error`.
use Prim.Native.String.{String}
use covsight_core.Prelude.{
  ℕ, zero, suc, List, [], false, Result, raise, ok, key_error, recursion_error, ◌>>=◌, or_raise,
}
use covsight_core.Prelude.Text.{Text, codes}
use covsight_core.Prelude.Json.{
  Json, Items, Fields, bool, num, str, arr, obj, nil, item, end, field, depth, get, as_fields,
  as_items, as_text, as_bool, as_num, get_or_default, items_of, read_list,
}
use covsight_core.Testplan.{
  RequirementLink, CoverageBinding, CoverpointEntry, CovergroupEntry, Testpoint, ImportEntry, Goal,
  Goals, goal, no_goals, goals, Testplan,
}

-- d.get(key, "") and d.get(key, []) for a text, a list of texts and a dictionary.
abbrev pub text_at : String → Fields → Result Text
text_at key fs = get_or_default as_text key [] fs

abbrev pub list_at {ℓ} : {A : Type ℓ} → (Json → Result A) → String → Fields → Result (List A)
list_at read key fs = get_or_default (read_list read) key [] fs

abbrev pub fields_at : String → Fields → Result Fields
fields_at key fs = get_or_default as_fields key end fs

unfoldable pub req_to_dict : RequirementLink → Json
req_to_dict r = obj (
    field "system" (str r.system) (
      field "project" (str r.project)
        (field "item_id" (str r.item_id) (field "url" (str r.url) end))))

unfoldable pub req_from_dict : Json → Result RequirementLink
req_from_dict d = do
  fs ← as_fields d
  system ← text_at "system" fs
  project ← text_at "project" fs
  item_id ← text_at "item_id" fs
  url ← text_at "url" fs
  ok (record { system = system; project = project; item_id = item_id; url = url })

unfoldable pub binding_to_dict : CoverageBinding → Json
binding_to_dict b =
    obj (field "type" (str b.type) (field "path" (str b.path) (field "desc" (str b.desc) end)))

unfoldable pub binding_from_dict : Json → Result CoverageBinding
binding_from_dict d = do
  fs ← as_fields d
  type ← get_or_default as_text "type" (codes "functional") fs
  path ← text_at "path" fs
  desc ← text_at "desc" fs
  ok (record { type = type; path = path; desc = desc })

unfoldable pub cp_entry_to_dict : CoverpointEntry → Json
cp_entry_to_dict cp = obj (
    field "name" (str cp.name) (
      field "desc" (str cp.desc) (field "path" (str cp.path) (field "custom" (obj cp.custom) end))))

unfoldable pub cp_entry_from_dict : Json → Result CoverpointEntry
cp_entry_from_dict d = do
  fs ← as_fields d
  name ← text_at "name" fs
  desc ← text_at "desc" fs
  path ← text_at "path" fs
  custom ← fields_at "custom" fs
  ok (record { name = name; desc = desc; path = path; custom = custom })

unfoldable pub cg_to_dict : CovergroupEntry → Json
cg_to_dict cg = obj (
    field "name" (str cg.name) (
      field "desc" (str cg.desc) (
        field "coverpoints" (arr (items_of cp_entry_to_dict cg.coverpoints))
          (field "custom" (obj cg.custom) end))))

unfoldable pub cg_from_dict : Json → Result CovergroupEntry
cg_from_dict d = do
  fs ← as_fields d
  name ← text_at "name" fs
  desc ← text_at "desc" fs
  coverpoints ← list_at cp_entry_from_dict "coverpoints" fs
  custom ← fields_at "custom" fs
  ok (record { name = name; desc = desc; coverpoints = coverpoints; custom = custom })

unfoldable pub tp_to_dict : Testpoint → Json
tp_to_dict tp = obj (
    field "name" (str tp.name) (
      field "stage" (str tp.stage) (
        field "desc" (str tp.desc) (
          field "tests" (arr (items_of str tp.tests)) (
            field "tags" (arr (items_of str tp.tags)) (
              field "na" (bool tp.na) (
                field "source_template" (str tp.source_template) (
                  field "requirements" (arr (items_of req_to_dict tp.requirements)) (
                    field "coverage" (arr (items_of binding_to_dict tp.coverage)) (
                      field "owner" (str tp.owner) (
                        field "priority" (str tp.priority) (
                          field "weight" (num tp.weight)
                            (field "custom" (obj tp.custom) end)))))))))))))

unfoldable pub tp_from_dict : Json → Result Testpoint
tp_from_dict d = do
  fs ← as_fields d
  named ← or_raise key_error (get "name" fs)
  name ← as_text named
  stage ← text_at "stage" fs
  desc ← text_at "desc" fs
  tests ← list_at as_text "tests" fs
  tags ← list_at as_text "tags" fs
  na ← get_or_default as_bool "na" false fs
  source_template ← text_at "source_template" fs
  requirements ← list_at req_from_dict "requirements" fs
  coverage ← list_at binding_from_dict "coverage" fs
  owner ← text_at "owner" fs
  priority ← text_at "priority" fs
  weight ← get_or_default as_num "weight" 1 fs
  custom ← fields_at "custom" fs
  ok (record {
    name = name;
    stage = stage;
    desc = desc;
    tests = tests;
    tags = tags;
    na = na;
    source_template = source_template;
    requirements = requirements;
    coverage = coverage;
    owner = owner;
    priority = priority;
    weight = weight;
    custom = custom;
  })

unfoldable mutual
  pub goal_to_dict : Goal → Json
  goal_to_dict (goal g subgoals) = obj (
      field "id" (str g.id) (
        field "title" (str g.title) (
          field "desc" (str g.desc) (
            field "owner" (str g.owner) (
              field "priority" (str g.priority) (
                field "status" (str g.status) (
                  field "tags" (arr (items_of str g.tags)) (
                    field "goals" (arr (goals_to_items subgoals)) (
                      field "testpoints" (arr (items_of tp_to_dict g.testpoints))
                        (field "custom" (obj g.custom) end))))))))))

  pub goals_to_items : Goals → Items
  goals_to_items no_goals = nil
  goals_to_items (goals g gs) = item (goal_to_dict g) (goals_to_items gs)

unfoldable pub read_goals : (Json → Result Goal) → Items → Result Goals
read_goals read nil = ok no_goals
read_goals read (item v vs) = read v >>= λ g. read_goals read vs >>= λ gs. ok (goals g gs)

abbrev pub goals_at : (Json → Result Goal) → Fields → Result Goals
goals_at read fs = get_or_default (λ v. as_items v >>= read_goals read) "goals" no_goals fs

unfoldable pub goal_from_dict : ℕ → Json → Result Goal
goal_from_dict zero d = raise recursion_error
goal_from_dict (suc fuel) d = do
  fs ← as_fields d
  id ← text_at "id" fs
  title ← text_at "title" fs
  desc ← text_at "desc" fs
  owner ← text_at "owner" fs
  priority ← text_at "priority" fs
  status ← text_at "status" fs
  tags ← list_at as_text "tags" fs
  subgoals ← goals_at (goal_from_dict fuel) fs
  testpoints ← list_at tp_from_dict "testpoints" fs
  custom ← fields_at "custom" fs
  ok (
      goal
        (record {
          id = id;
          title = title;
          desc = desc;
          owner = owner;
          priority = priority;
          status = status;
          tags = tags;
          testpoints = testpoints;
          custom = custom;
        })
        subgoals)

unfoldable pub import_to_dict : ImportEntry → Json
import_to_dict ie =
    obj (field "path" (str ie.path) (field "substitutions" (obj ie.substitutions) end))

unfoldable pub import_from_dict : Json → Result ImportEntry
import_from_dict d = do
  fs ← as_fields d
  path ← text_at "path" fs
  substitutions ← fields_at "substitutions" fs
  ok (record { path = path; substitutions = substitutions })

unfoldable pub to_dict : Testplan → Json
to_dict plan = obj (
    field "format_version" (num plan.format_version) (
      field "schema" (str plan.schema) (
        field "name" (str plan.name) (
          field "description" (str plan.description) (
            field "owner" (str plan.owner) (
              field "tags" (arr (items_of str plan.tags)) (
                field "substitutions" (obj plan.substitutions) (
                  field "imports" (arr (items_of import_to_dict plan.imports)) (
                    field "source_file" (str plan.source_file) (
                      field "import_timestamp" (str plan.import_timestamp) (
                        field "testpoints" (arr (items_of tp_to_dict plan.testpoints)) (
                          field "goals" (arr (goals_to_items plan.goal_tree)) (
                            field "covergroups" (arr (items_of cg_to_dict plan.covergroups))
                              (field "custom" (obj plan.custom) end))))))))))))))

unfoldable pub from_dict : Json → Result Testplan
from_dict d = do
  fs ← as_fields d
  format_version ← get_or_default as_num "format_version" 1 fs
  schema ← text_at "schema" fs
  name ← text_at "name" fs
  description ← text_at "description" fs
  owner ← text_at "owner" fs
  tags ← list_at as_text "tags" fs
  substitutions ← fields_at "substitutions" fs
  imports ← list_at import_from_dict "imports" fs
  source_file ← text_at "source_file" fs
  import_timestamp ← text_at "import_timestamp" fs
  custom ← fields_at "custom" fs
  testpoints ← list_at tp_from_dict "testpoints" fs
  goal_tree ← goals_at (goal_from_dict (depth d)) fs
  covergroups ← list_at cg_from_dict "covergroups" fs
  ok (record {
    format_version = format_version;
    schema = schema;
    name = name;
    description = description;
    owner = owner;
    tags = tags;
    substitutions = substitutions;
    imports = imports;
    source_file = source_file;
    import_timestamp = import_timestamp;
    testpoints = testpoints;
    goal_tree = goal_tree;
    covergroups = covergroups;
    custom = custom;
    tp_by_name = [];
    tp_by_test = [];
    indexed = false;
  })
