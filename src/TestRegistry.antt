-- ===== src/TestRegistry.antt =====
-- python/covsight/core/ncdb/test_registry.py: the ids of test names, seeds and runs. A list of strings
-- with its reverse dictionary is the table of StringTable, whose `add` does what the two lookups do.
pub mod Stable
pub mod Bytes
pub mod RoundTrip
use covsight_core.Prelude.{ℕ, ◌+◌, Result, List, [], ◌∷◌, Option, some}
use covsight_core.Prelude.Text.{Text}
use covsight_core.StringTable.{StringTable, empty_table, add, get}

pub record TestRegistry : Type 0 where
  pub next_run_id : ℕ
  pub names : StringTable
  pub seeds : StringTable

unfoldable pub new_registry : ℕ → TestRegistry
new_registry next_run_id = record {
  next_run_id = next_run_id;
  names = empty_table;
  seeds = empty_table;
}

unfoldable pub assign_run_id : TestRegistry → ℕ × TestRegistry
assign_run_id reg = (reg.next_run_id, record reg { next_run_id = reg.next_run_id + 1 })

unfoldable pub lookup_name_id : Text → TestRegistry → ℕ × TestRegistry
lookup_name_id name reg =
    let (nid, names) = add (some name) reg.names in (nid, record reg { names = names })

unfoldable pub name_for_id : ℕ → TestRegistry → Result Text
name_for_id name_id reg = get name_id reg.names

unfoldable pub lookup_seed_id : Text → TestRegistry → ℕ × TestRegistry
lookup_seed_id seed reg =
    let (sid, seeds) = add (some seed) reg.seeds in (sid, record reg { seeds = seeds })

unfoldable pub seed_for_id : ℕ → TestRegistry → Result Text
seed_for_id seed_id reg = get seed_id reg.seeds

-- What a run of the program may do to a registry.
pub data Request : Type 0 where
  run : Request
  name seed : Text → Request

unfoldable pub handle : Request → TestRegistry → ℕ × TestRegistry
handle run reg = assign_run_id reg
handle (name s) reg = lookup_name_id s reg
handle (seed s) reg = lookup_seed_id s reg

unfoldable pub handle_all : List Request → TestRegistry → TestRegistry
handle_all [] reg = reg
handle_all (r ∷ requests) reg = handle_all requests (handle r reg).1
