-- ===== src/Tests/Registry.antt =====
-- Registries of tests at concrete inputs.
use covsight_core.Prelude.{sym, ◌≡◌, ◌<◌, ◌^◌, List, [], ◌∷◌, some, ok, refl, arith, length}
use covsight_core.Prelude.Text.{codes, text_key}
use covsight_core.Prelude.Dict.{lookup, put}
use covsight_core.Varint.{Bytes}
use covsight_core.StringTable.{Utf8, add}
use covsight_core.StringTable.RoundTrip.{empty-IsTable}
use covsight_core.TestRegistry.{
  TestRegistry, Request, run, name, seed, new_registry, handle_all, handle, lookup_name_id,
  lookup_seed_id, assign_run_id,
}
use covsight_core.TestRegistry.Stable.{IsRegistry, handle_all-IsLater}
use covsight_core.TestRegistry.Bytes.{heap, serialize, deserialize}
use covsight_core.TestRegistry.RoundTrip.{AreEncodings, deserialize-serialize-IsRegistry}

-- The codec on texts of ASCII characters.
abbrev ascii : Utf8
ascii = record {
  encode = λ s. some s;
  decode = λ bytes. some bytes;
  decode-encode = λ s bytes e. sym e;
}

abbrev requests : List Request
requests =
    name (codes "smoke") ∷ run ∷ seed (codes "42") ∷ name (codes "a") ∷ name (codes "smoke") ∷ []

abbrev registry : TestRegistry
registry = handle_all requests (new_registry 5)

new_registry-IsRegistry : IsRegistry (new_registry 5)
unfolding new_registry
new_registry-IsRegistry = (empty-IsTable, empty-IsTable)

registry-IsRegistry : IsRegistry registry
registry-IsRegistry = (handle_all-IsLater requests (new_registry 5) new_registry-IsRegistry).0

names-AreEncodings : AreEncodings ascii registry.names.strings (codes "smoke" ∷ codes "a" ∷ [])
unfolding handle_all handle new_registry add lookup put lookup_name_id lookup_seed_id assign_run_id
names-AreEncodings = (
  refl,
  (omega arith, (omega arith, (omega arith, (omega arith, (omega arith, tt))))),
  (refl, (omega arith, tt), tt),
)

seeds-AreEncodings : AreEncodings ascii registry.seeds.strings (codes "42" ∷ [])
unfolding handle_all handle new_registry add lookup put lookup_name_id lookup_seed_id assign_run_id
seeds-AreEncodings = (refl, (omega arith, (omega arith, tt)), tt)

run-lt : registry.next_run_id < 256 ^ 4
unfolding handle_all handle new_registry add lookup put lookup_name_id lookup_seed_id assign_run_id
run-lt = omega arith

names-lt : length (heap (codes "smoke" ∷ codes "a" ∷ [])) < 256 ^ 4
unfolding heap
names-lt = omega arith

seeds-lt : length (heap (codes "42" ∷ [])) < 256 ^ 4
unfolding heap
seeds-lt = omega arith

deserialize-serialize-IsRegistry_example :
    (bytes : Bytes) × (later : TestRegistry) × (serialize ascii registry ≡ ok bytes)
    × (deserialize ascii bytes ≡ ok later)
    × (later.next_run_id ≡ registry.next_run_id)
    × (later.names.strings ≡ registry.names.strings)
    × (later.seeds.strings ≡ registry.seeds.strings)
    × IsRegistry later
deserialize-serialize-IsRegistry_example =
    deserialize-serialize-IsRegistry ascii registry (codes "smoke" ∷ codes "a" ∷ [])
      (codes "42" ∷ []) registry-IsRegistry names-AreEncodings seeds-AreEncodings run-lt
      (omega arith) (omega arith) names-lt seeds-lt
