-- ===== src/TestRegistry/Stable.antt =====
-- Ids do not change, whatever is asked of a registry later.
use covsight_core.Prelude.{ℕ, ◌≤◌, ◌≡◌, List, [], ◌∷◌, some, ok, get_elem?, arith, refl}
use covsight_core.Prelude.Text.{Text}
use covsight_core.StringTable.{StringTable, add, get}
use covsight_core.StringTable.Interning.{IsTable, add-IsTable}
use covsight_core.TestRegistry.{
  TestRegistry, Request, run, name, seed, assign_run_id, lookup_name_id, name_for_id,
  lookup_seed_id, seed_for_id, handle, handle_all,
}

-- The dictionaries of a registry name the positions of its strings.
abbrev pub IsRegistry : TestRegistry → Type 0
IsRegistry reg = IsTable reg.names × IsTable reg.seeds

-- Every id of one registry means the same in another, where run ids are no smaller.
abbrev pub IsLater : TestRegistry → TestRegistry → Type 0
IsLater old new =
    (old.next_run_id ≤ new.next_run_id)
    × ((i : ℕ) (s : Text) → name_for_id i old ≡ ok s → name_for_id i new ≡ ok s)
    × ((i : ℕ) (s : Text) → seed_for_id i old ≡ ok s → seed_for_id i new ≡ ok s)

get-ok : (i : ℕ) (s : Text) (t : StringTable) → get i t ≡ ok s → get_elem? t.strings i ≡ some s
unfolding get
get-ok i s t h = ground arith

get-some : (i : ℕ) (s : Text) (t : StringTable) → get_elem? t.strings i ≡ some s → get i t ≡ ok s
unfolding get
get-some i s t h = rw h refl

handle-IsLater :
    (r : Request) (reg : TestRegistry)
    → IsRegistry reg
    → IsRegistry (handle r reg).1 × IsLater reg (handle r reg).1
unfolding handle assign_run_id lookup_name_id lookup_seed_id name_for_id seed_for_id
handle-IsLater run reg h = (h, (omega arith, (λ i s e. e), (λ i s e. e)))
handle-IsLater (name x) reg h =
    let (is, at, keeps, again) = add-IsTable (some x) reg.names h.0 in
    (
      (is, h.1),
      (omega arith, (λ i s e. get-some i s _ (keeps i s (get-ok i s reg.names e))), (λ i s e. e)),
    )
handle-IsLater (seed x) reg h =
    let (is, at, keeps, again) = add-IsTable (some x) reg.seeds h.1 in
    (
      (h.0, is),
      (omega arith, (λ i s e. e), (λ i s e. get-some i s _ (keeps i s (get-ok i s reg.seeds e)))),
    )

-- If the dictionaries of a registry name the positions of its strings, then after any sequence of
-- requests they still do, every name id and every seed id means the string that it meant before, and
-- the next run id is no smaller.
pub handle_all-IsLater :
    (requests : List Request) (reg : TestRegistry)
    → IsRegistry reg
    → IsRegistry (handle_all requests reg) × IsLater reg (handle_all requests reg)
unfolding handle_all
handle_all-IsLater [] reg h = (h, (omega arith, (λ i s e. e), (λ i s e. e)))
handle_all-IsLater (r ∷ requests) reg h =
    let (k, l) = handle-IsLater r reg h in
    let (is, later) = handle_all-IsLater requests (handle r reg).1 k in
    (
      is,
      (
        omega (arith, l.0, later.0),
        (λ i s e. later.1 i s (l.1 i s e)),
        (λ i s e. later.2 i s (l.2 i s e)),
      ),
    )

looked_up-IsLater :
    (x : Text) (reg : TestRegistry)
    → IsRegistry reg
    → IsRegistry (lookup_name_id x reg).1 × IsLater reg (lookup_name_id x reg).1
looked_up-IsLater x reg h = unfold handle in handle-IsLater (name x) reg h

found :
    (x : Text) (reg : TestRegistry)
    → get_elem? (add (some x) reg.names).1.strings (add (some x) reg.names).0 ≡ some x
    → name_for_id (lookup_name_id x reg).0 (lookup_name_id x reg).1 ≡ ok x
unfolding name_for_id lookup_name_id
found x reg at = get-some _ x _ at

-- In a registry whose dictionaries name the positions of its strings the id that a name is given
-- means that name, whatever is asked afterwards.
pub name_for_id-lookup_name_id :
    (x : Text) (reg : TestRegistry) (requests : List Request)
    → IsRegistry reg
    → name_for_id (lookup_name_id x reg).0 (handle_all requests (lookup_name_id x reg).1) ≡ ok x
name_for_id-lookup_name_id x reg requests h =
    let (k, l) = looked_up-IsLater x reg h in
    let at = (add-IsTable (some x) reg.names h.0).1 in
    (handle_all-IsLater requests (lookup_name_id x reg).1 k).1.1 (lookup_name_id x reg).0 x
      (found x reg at)
