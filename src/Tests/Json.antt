-- ===== src/Tests/Json.antt =====
-- A printer and a parser of run tables that can stand for `json`: length-prefixed, in numbers.
use covsight_core.Prelude.{
  ℕ, zero, suc, ◌≡◌, [], ◌∷◌, ◌++◌, Bool, true, false, Option, none, some, refl, length, take, drop,
  ◌==◌, not, ap,
}
use covsight_core.Prelude.Text.{Text}
use covsight_core.Varint.{Bytes}
use covsight_core.Multirun.{RunEntry, RunTable, Payload, RunsJson}

infixl 5 ◌>>?◌
abbrev ◌>>?◌ : {A B : Type 0} → Option A → (A → Option B) → Option B
none >>? f = none
some a >>? f = f a

take-append : (t k : Bytes) → take (length t) (t ++ k) ≡ t
take-append [] k = refl
take-append (c ∷ t) k = ap (◌∷◌ c) (take-append t k)

drop-append : (t k : Bytes) → drop (length t) (t ++ k) ≡ k
drop-append [] k = refl
drop-append (c ∷ t) k = drop-append t k

unfoldable put_text : Text → Bytes → Bytes
put_text t k = length t ∷ t ++ k

unfoldable get_text : Bytes → Option (Text × Bytes)
get_text [] = none
get_text (n ∷ k) = some (take n k, drop n k)

get_put_text : (t : Text) (k : Bytes) → get_text (put_text t k) ≡ some (t, k)
unfolding get_text put_text
get_put_text t k = rw (take-append t k, drop-append t k)

unfoldable put_status : Option Text → Bytes → Bytes
put_status none k = 0 ∷ k
put_status (some t) k = 1 ∷ put_text t k

unfoldable get_status : Bytes → Option (Option Text × Bytes)
get_status [] = none
get_status (n ∷ k) = elim n [
  | zero ↦ some (none, k)
  | suc m ↦ get_text k >>? λ r. some (some r.0, r.1)
]

get_put_status : (s : Option Text) (k : Bytes) → get_status (put_status s k) ≡ some (s, k)
unfolding get_status put_status
get_put_status none k = refl
get_put_status (some t) k = rw (get_put_text t k)

unfoldable put_flag : Bool → ℕ
put_flag true = 1
put_flag false = 0

unfoldable put_entries : RunTable → Bytes → Bytes
put_entries [] k = k
put_entries (e ∷ t) k =
    put_text e.run_id
      (put_text e.member (put_status e.status (put_flag e.rerun ∷ e.nonzero ∷ put_entries t k)))

abbrev get_last : Text → Text → Option Text → Bytes → Option (RunEntry × Bytes)
get_last run_id member status (flag ∷ nonzero ∷ k) = some (
  record {
    run_id = run_id;
    member = member;
    status = status;
    rerun = not (flag == 0);
    nonzero = nonzero;
  },
  k,
)
get_last run_id member status _ = none

unfoldable get_entry : Bytes → Option (RunEntry × Bytes)
get_entry k =
    get_text k >>? λ a. get_text a.1 >>? λ b. get_status b.1 >>? λ c. get_last a.0 b.0 c.0 c.1

unfoldable get_entries : ℕ → Bytes → Option (RunTable × Bytes)
get_entries zero k = some ([], k)
get_entries (suc n) k = get_entry k >>? λ e. get_entries n e.1 >>? λ t. some (e.0 ∷ t.0, t.1)

flag_back : (b : Bool) → not (put_flag b == 0) ≡ b
unfolding put_flag
flag_back true = refl
flag_back false = refl

get_put_entries :
    (t : RunTable) (k : Bytes) → get_entries (length t) (put_entries t k) ≡ some (t, k)
unfolding get_entries put_entries get_entry
get_put_entries [] k = refl
get_put_entries (e ∷ t) k = rw (
  get_put_text e.run_id
      (put_text e.member (put_status e.status (put_flag e.rerun ∷ e.nonzero ∷ put_entries t k))),
  get_put_text e.member (put_status e.status (put_flag e.rerun ∷ e.nonzero ∷ put_entries t k)),
  get_put_status e.status (put_flag e.rerun ∷ e.nonzero ∷ put_entries t k),
  get_put_entries t k,
  flag_back e.rerun,
)

abbrev put_version : Option ℕ → ℕ
put_version none = 0
put_version (some v) = suc v

abbrev get_version : ℕ → Option ℕ
get_version zero = none
get_version (suc v) = some v

unfoldable dumps : Payload → Bytes
dumps p = put_version p.version ∷ length p.runs ∷ put_entries p.runs []

unfoldable loads : Bytes → Option Payload
loads (v ∷ n ∷ k) = get_entries n k >>? λ t. some (record { version = get_version v; runs = t.0 })
loads _ = none

version_back : (v : Option ℕ) → get_version (put_version v) ≡ v
version_back none = refl
version_back (some v) = refl

loads_dumps : (p : Payload) → loads (dumps p) ≡ some p
unfolding loads dumps
loads_dumps p = rw (get_put_entries p.runs [], version_back p.version)

dumps_ne_nil : (p : Payload) → ¬ (dumps p ≡ [])
unfolding dumps
dumps_ne_nil p e = cc

pub toy_json : RunsJson
toy_json = record {
  dumps = dumps;
  loads = loads;
  loads-dumps = loads_dumps;
  dumps-ne-nil = dumps_ne_nil;
}
