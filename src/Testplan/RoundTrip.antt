-- ===== src/Testplan/RoundTrip.antt =====
-- testplan.py: a plan written to a dictionary and read back.
use covsight_core.Prelude.{ℕ, zero, suc, ◌≤◌, ◌≡◌, List, [], false, ok, arith, refl}
use covsight_core.Prelude.Text.{Text}
use covsight_core.Prelude.Json.{
  str, depth, depth_items, as_text, items_of, read_items, read_items-items_of,
}
use covsight_core.Testplan.{
  RequirementLink, CoverageBinding, CoverpointEntry, CovergroupEntry, Testpoint, ImportEntry, Goal,
  Goals, goal, no_goals, goals, Testplan,
}
use covsight_core.Testplan.Dicts.{
  req_to_dict, req_from_dict, binding_to_dict, binding_from_dict, cp_entry_to_dict,
  cp_entry_from_dict, cg_to_dict, cg_from_dict, tp_to_dict, tp_from_dict, goal_to_dict,
  goals_to_items, read_goals, goal_from_dict, import_to_dict, import_from_dict, to_dict, from_dict,
}

req_back : (r : RequirementLink) → req_from_dict (req_to_dict r) ≡ ok r
unfolding req_from_dict req_to_dict
req_back r = refl

binding_back : (b : CoverageBinding) → binding_from_dict (binding_to_dict b) ≡ ok b
unfolding binding_from_dict binding_to_dict
binding_back b = refl

cp_entry_back : (cp : CoverpointEntry) → cp_entry_from_dict (cp_entry_to_dict cp) ≡ ok cp
unfolding cp_entry_from_dict cp_entry_to_dict
cp_entry_back cp = refl

import_back : (ie : ImportEntry) → import_from_dict (import_to_dict ie) ≡ ok ie
unfolding import_from_dict import_to_dict
import_back ie = refl

texts_back : (ts : List Text) → read_items as_text (items_of str ts) ≡ ok ts
texts_back = read_items-items_of as_text str (λ t. refl)

cg_back : (cg : CovergroupEntry) → cg_from_dict (cg_to_dict cg) ≡ ok cg
unfolding cg_from_dict cg_to_dict
cg_back cg =
    rw (read_items-items_of cp_entry_from_dict cp_entry_to_dict cp_entry_back cg.coverpoints)

tp_back : (tp : Testpoint) → tp_from_dict (tp_to_dict tp) ≡ ok tp
unfolding tp_from_dict tp_to_dict
tp_back tp = rw (
  texts_back tp.tests,
  texts_back tp.tags,
  read_items-items_of req_from_dict req_to_dict req_back tp.requirements,
  read_items-items_of binding_from_dict binding_to_dict binding_back tp.coverage,
)

mutual
  unfolding goal_to_dict goal_from_dict read_goals depth

  goal_back :
      (fuel : ℕ) (g : Goal)
      → depth (goal_to_dict g) ≤ fuel
      → goal_from_dict fuel (goal_to_dict g) ≡ ok g
  goal_back zero (goal head subgoals) h = absurd (omega arith)
  goal_back (suc fuel) (goal head subgoals) h = rw (
    texts_back head.tags,
    goals_back fuel subgoals (omega arith),
    read_items-items_of tp_from_dict tp_to_dict tp_back head.testpoints,
  )

  goals_back :
      (fuel : ℕ) (gs : Goals)
      → depth_items (goals_to_items gs) ≤ fuel
      → read_goals (goal_from_dict fuel) (goals_to_items gs) ≡ ok gs
  goals_back fuel no_goals h = refl
  goals_back fuel (goals g gs) h =
      rw (goal_back fuel g (omega arith), goals_back fuel gs (omega arith))

-- The plan as it is read: its indexes are not built.
abbrev pub unindexed : Testplan → Testplan
unindexed plan = record plan { tp_by_name = []; tp_by_test = []; indexed = false }

-- A plan with goals nested to any depth is read back from its dictionary with all its attributes; only
-- its indexes have to be built anew.
pub from_dict-to_dict : (plan : Testplan) → from_dict (to_dict plan) ≡ ok (unindexed plan)
unfolding from_dict to_dict depth
from_dict-to_dict plan = rw (
  texts_back plan.tags,
  read_items-items_of import_from_dict import_to_dict import_back plan.imports,
  read_items-items_of tp_from_dict tp_to_dict tp_back plan.testpoints,
  goals_back (depth (to_dict plan)) plan.goal_tree (omega arith),
  read_items-items_of cg_from_dict cg_to_dict cg_back plan.covergroups,
)
