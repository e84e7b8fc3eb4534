-- ===== src/Prelude/Json.antt =====
-- The values of `json`, and how the code reads a dictionary of them with defaults.
-- A value of another type than the class declares for a field is outside the model: it is a `type_error`.
use Prim.Native.Nat.{ℕ, suc, ◌+◌}
use Prim.Native.String.{String}
use text.Mathlib.Text.{◌==◌ as str_eq}
use mathlib.Core.Path.{◌≡◌, refl}
use mathlib.Core.Bool.{Bool}
use mathlib.Core.Option.{Option, none, some}
use mathlib.Core.List.{List, [], ◌∷◌}
use covsight_core.Prelude.Tests.{if◌then◌else◌}
use covsight_core.Prelude.Results.{Result, raise, ok, type_error, ◌>>=◌}
use covsight_core.Prelude.Text.{Text}

mutual
  pub data Json : Type 0 where
    null : Json
    bool : Bool → Json
    num : ℕ → Json
    str : Text → Json
    arr : Items → Json
    obj : Fields → Json

  pub data Items : Type 0 where
    nil : Items
    item : Json → Items → Items

  pub data Fields : Type 0 where
    end : Fields
    field : String → Json → Fields → Fields

unfoldable mutual
  pub depth : Json → ℕ
  depth null = 1
  depth (bool b) = 1
  depth (num n) = 1
  depth (str t) = 1
  depth (arr xs) = suc (depth_items xs)
  depth (obj fs) = suc (depth_fields fs)

  pub depth_items : Items → ℕ
  depth_items nil = 0
  depth_items (item x xs) = depth x + depth_items xs

  pub depth_fields : Fields → ℕ
  depth_fields end = 0
  depth_fields (field k v fs) = depth v + depth_fields fs

-- d.get(key)
abbrev pub get : String → Fields → Option Json
get key end = none
get key (field k v fs) = if str_eq k key then some v else get key fs

abbrev pub as_fields : Json → Result Fields
as_fields (obj fs) = ok fs
as_fields other = raise type_error

abbrev pub as_items : Json → Result Items
as_items (arr xs) = ok xs
as_items other = raise type_error

abbrev pub as_text : Json → Result Text
as_text (str t) = ok t
as_text other = raise type_error

abbrev pub as_bool : Json → Result Bool
as_bool (bool b) = ok b
as_bool other = raise type_error

abbrev pub as_num : Json → Result ℕ
as_num (num n) = ok n
as_num other = raise type_error

-- read(d.get(key, default))
abbrev pub get_or_default {ℓ} : {A : Type ℓ} → (Json → Result A) → String → A → Fields → Result A
get_or_default read key default fs = elim (get key fs) [ none ↦ ok default | some v ↦ read v ]

-- `[write(x) for x in xs]` and `[read(x) for x in xs]`
module _ {ℓ} {A : Type ℓ} where
  abbrev pub items_of : (A → Json) → List A → Items
  items_of write [] = nil
  items_of write (x ∷ xs) = item (write x) (items_of write xs)

  abbrev pub read_items : (Json → Result A) → Items → Result (List A)
  read_items read nil = ok []
  read_items read (item v vs) = read v >>= λ x. read_items read vs >>= λ xs. ok (x ∷ xs)

  abbrev pub read_list : (Json → Result A) → Json → Result (List A)
  read_list read v = as_items v >>= read_items read

  pub read_items-items_of :
      (read : Json → Result A) (write : A → Json)
      → ((x : A) → read (write x) ≡ ok x)
      → (xs : List A) → read_items read (items_of write xs) ≡ ok xs
  read_items-items_of read write back [] = refl
  read_items-items_of read write back (x ∷ xs) = rw (back x, read_items-items_of read write back xs)
