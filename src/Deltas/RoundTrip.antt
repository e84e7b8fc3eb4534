-- ===== src/Deltas/RoundTrip.antt =====
-- When a sparse table can be written, and that it is read back.
use covsight_core.Prelude.{
  ℕ, ◌+◌, ◌-◌, ◌≤◌, ◌<◌, ◌≡◌, List, [], ◌∷◌, ◌++◌, ok, raise, value_error, refl, arith, length,
  append_assoc, ◌⊎◌, inl, inr,
}
use covsight_core.Prelude.Int.{sub_ℕ-le, sub_ℕ-lt}
use covsight_core.Varint.{Bytes, encode_nat, encode_varint}
use covsight_core.Varint.RoundTrip.{decode-encode_nat}
use covsight_core.Deltas.{write_pairs, read_pairs}

-- No index is below the one before it, which starts at `p`.
abbrev pub Ascending : ℕ → List (ℕ × ℕ) → Type 0
Ascending p [] = Unit
Ascending p ((i, v) ∷ es) = (p ≤ i) × Ascending i es

-- The bytes of a table whose indices ascend.
unfoldable pub pair_bytes : ℕ → List (ℕ × ℕ) → Bytes
pair_bytes p [] = []
pair_bytes p ((i, v) ∷ es) = encode_nat (i - p) ++ (encode_nat v ++ pair_bytes i es)

pub write_pairs-Ascending :
    (p : ℕ) (es : List (ℕ × ℕ)) → Ascending p es → write_pairs p es ≡ ok (pair_bytes p es)
unfolding write_pairs pair_bytes encode_varint
write_pairs-Ascending p [] h = refl
write_pairs-Ascending p ((i, v) ∷ es) h = rw (sub_ℕ-le i p h.0, write_pairs-Ascending i es h.1)

-- A table with an index below the one before it is refused, and nothing else is.
pub write_pairs-cases :
    (p : ℕ) (es : List (ℕ × ℕ))
    → (Ascending p es × (write_pairs p es ≡ ok (pair_bytes p es)))
      ⊎ (¬ Ascending p es × (write_pairs p es ≡ raise value_error))
unfolding write_pairs pair_bytes encode_varint
write_pairs-cases p [] = inl (tt, refl)
write_pairs-cases p ((i, v) ∷ es) = elim (before p i) [
  | inr below ↦ inr ((λ h. absurd (omega arith)), rw (sub_ℕ-lt i p below))
  | inl le ↦ elim (write_pairs-cases i es) [
    | inl (asc, w) ↦ inl ((le, asc), rw (sub_ℕ-le i p le, w))
    | inr (no_asc, w) ↦ inr ((λ h. no_asc h.1), rw (sub_ℕ-le i p le, w))
  ]
]
  where
    before : (a b : ℕ) → (a ≤ b) ⊎ (b < a)
    before a b = grind arith

pub read_pairs-bytes :
    (p : ℕ) (es : List (ℕ × ℕ)) (rest : Bytes)
    → Ascending p es
    → read_pairs (length es) p (pair_bytes p es ++ rest) ≡ ok (es, rest)
unfolding read_pairs pair_bytes
read_pairs-bytes p [] rest h = refl
read_pairs-bytes p ((i, v) ∷ es) rest h = rw (
  append_assoc (encode_nat (i - p)) (encode_nat v ++ pair_bytes i es) rest,
  append_assoc (encode_nat v) (pair_bytes i es) rest,
  decode-encode_nat (i - p) (encode_nat v ++ (pair_bytes i es ++ rest)),
  decode-encode_nat v (pair_bytes i es ++ rest),
  back,
  read_pairs-bytes i es rest h.1,
)
  where
    back : p + (i - p) ≡ i
    back = omega (arith, h.0)

-- A table whose indices ascend is written, and reading as many entries back returns the table and
-- leaves what follows.
read_pairs-write_pairs :
    (p : ℕ) (es : List (ℕ × ℕ)) (rest : Bytes)
    → Ascending p es
    → (bytes : Bytes) × (write_pairs p es ≡ ok bytes)
      × (read_pairs (length es) p (bytes ++ rest) ≡ ok (es, rest))
read_pairs-write_pairs p es rest h =
    (pair_bytes p es, write_pairs-Ascending p es h, read_pairs-bytes p es rest h)
