-- ===== src/Testplan.antt =====
-- python/covsight/core/ncdb/testplan.py: the classes of a test plan.
-- A class attribute that holds a dictionary of any content (custom, substitutions) is kept as its JSON
-- fields. `_indexed`, `_tp_by_name` and `_tp_by_test` are the last three fields of `Testplan`.
pub mod Dicts
pub mod RoundTrip
pub mod Index
pub mod Current
pub mod Owner
use covsight_core.Prelude.{ℕ, List, [], ◌∷◌, ◌++◌, Bool, true, false}
use covsight_core.Prelude.Text.{Text}
use covsight_core.Prelude.Dict.{Dict}
use covsight_core.Prelude.Json.{Fields, end}

pub record RequirementLink : Type 0 where
  pub system : Text
  pub project : Text
  pub item_id : Text
  pub url : Text

pub record CoverageBinding : Type 0 where
  pub type : Text
  pub path : Text
  pub desc : Text

pub record CoverpointEntry : Type 0 where
  pub name : Text
  pub desc : Text
  pub path : Text
  pub custom : Fields

pub record CovergroupEntry : Type 0 where
  pub name : Text
  pub desc : Text
  pub coverpoints : List CoverpointEntry
  pub custom : Fields

pub record Testpoint : Type 0 where
  pub name : Text
  pub stage : Text
  pub desc : Text
  pub tests : List Text
  pub tags : List Text
  pub na : Bool
  pub source_template : Text
  pub requirements : List RequirementLink
  pub coverage : List CoverageBinding
  pub owner : Text
  pub priority : Text
  pub weight : ℕ
  pub custom : Fields

pub record ImportEntry : Type 0 where
  pub path : Text
  pub substitutions : Fields

-- The attributes of a Goal but its sub-goals.
pub record GoalHead : Type 0 where
  pub id : Text
  pub title : Text
  pub desc : Text
  pub owner : Text
  pub priority : Text
  pub status : Text
  pub tags : List Text
  pub testpoints : List Testpoint
  pub custom : Fields

mutual
  pub data Goal : Type 0 where
    goal : GoalHead → Goals → Goal

  pub data Goals : Type 0 where
    no_goals : Goals
    goals : Goal → Goals → Goals

pub record Testplan : Type 0 where
  pub format_version : ℕ
  pub schema : Text
  pub name : Text
  pub description : Text
  pub owner : Text
  pub tags : List Text
  pub substitutions : Fields
  pub imports : List ImportEntry
  pub source_file : Text
  pub import_timestamp : Text
  pub testpoints : List Testpoint
  pub goal_tree : Goals
  pub covergroups : List CovergroupEntry
  pub custom : Fields
  pub tp_by_name : Dict Text Testpoint
  pub tp_by_test : Dict Text Testpoint
  pub indexed : Bool

-- _iter_goal_testpoints
unfoldable mutual
  pub goal_testpoints : Goal → List Testpoint
  goal_testpoints (goal head subgoals) = head.testpoints ++ iter_goal_testpoints subgoals

  pub iter_goal_testpoints : Goals → List Testpoint
  iter_goal_testpoints no_goals = []
  iter_goal_testpoints (goals g gs) = goal_testpoints g ++ iter_goal_testpoints gs

unfoldable pub iter_testpoints : Testplan → List Testpoint
iter_testpoints plan = plan.testpoints ++ iter_goal_testpoints plan.goal_tree
