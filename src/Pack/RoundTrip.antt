-- ===== src/Pack/RoundTrip.antt =====
-- Packed fields read back, and when packing succeeds.
use native.Mathlib.Nat.{pow-suc}
use covsight_core.Prelude.{
  ℕ, zero, suc, ◌/◌, ◌^◌, ◌<◌, ◌≡◌, List, [], ◌∷◌, ◌++◌, ok, lt→ltb, arith, refl, length,
  append_assoc, ap, append-nil, >>=-eq-ok, All,
}
use covsight_core.Varint.{Bytes}
use covsight_core.Pack.{
  le_bytes, pack_uint, unpack_uint, pack_fields, unpack_fields, pack_rows, unpack_rows, pack_table,
}

pub unpack-le_bytes :
    (w n : ℕ) (rest : Bytes) → n < 256 ^ w → unpack_uint w (le_bytes w n ++ rest) ≡ ok (n, rest)
unfolding unpack_uint le_bytes
unpack-le_bytes zero n rest h = ap (λ (t : ℕ). ok (t, rest)) (omega arith)
unpack-le_bytes (suc w) n rest h =
    rw (unpack-le_bytes w (n / 256) rest (omega (arith, pow-suc 256 w)))
      (ap (λ (t : ℕ). ok (t, rest)) (omega arith))

-- Each value fits its field.
abbrev pub Fits : List ℕ → List ℕ → Type 0
Fits [] [] = Unit
Fits [] (v ∷ vs) = Unit
Fits (w ∷ ws) [] = ⊥
Fits (w ∷ ws) (v ∷ vs) = (v < 256 ^ w) × Fits ws vs

-- The bytes of a row, one field after the other.
unfoldable pub row_bytes : List ℕ → List ℕ → Bytes
row_bytes [] vs = []
row_bytes (w ∷ ws) [] = []
row_bytes (w ∷ ws) (v ∷ vs) = le_bytes w v ++ row_bytes ws vs

pub pack_fields-row : (ws vs : List ℕ) → Fits ws vs → pack_fields ws vs ≡ ok (row_bytes ws vs)
unfolding pack_fields row_bytes pack_uint
pack_fields-row [] vs h = refl
pack_fields-row (w ∷ ws) [] h = absurd h
pack_fields-row (w ∷ ws) (v ∷ vs) h = rw (lt→ltb v (256 ^ w) h.0, pack_fields-row ws vs h.1)

pack_uint-fits : (w v : ℕ) (b : Bytes) → pack_uint w v ≡ ok b → v < 256 ^ w
unfolding pack_uint
pack_uint-fits w v b h = ground arith

-- A row that was packed has values that fit.
pub pack_fields-Fits : (ws vs : List ℕ) (bytes : Bytes) → pack_fields ws vs ≡ ok bytes → Fits ws vs
unfolding pack_fields
pack_fields-Fits [] [] bytes h = tt
pack_fields-Fits [] (v ∷ vs) bytes h = tt
pack_fields-Fits (w ∷ ws) [] bytes h = cc
pack_fields-Fits (w ∷ ws) (v ∷ vs) bytes h =
    let (b, p, q) = >>=-eq-ok (pack_uint w v) _ h in
    let (r, p', q') = >>=-eq-ok (pack_fields ws vs) _ q in
    (pack_uint-fits w v b p, pack_fields-Fits ws vs r p')

pub unpack_fields-row :
    (ws vs : List ℕ) (rest : Bytes)
    → length vs ≡ length ws
    → Fits ws vs
    → unpack_fields ws (row_bytes ws vs ++ rest) ≡ ok (vs, rest)
unfolding unpack_fields row_bytes
unpack_fields-row [] [] rest e h = refl
unpack_fields-row [] (v ∷ vs) rest e h = absurd (omega arith)
unpack_fields-row (w ∷ ws) [] rest e h = absurd h
unpack_fields-row (w ∷ ws) (v ∷ vs) rest e h = rw (
  append_assoc (le_bytes w v) (row_bytes ws vs) rest,
  unpack-le_bytes w v (row_bytes ws vs ++ rest) h.0,
  unpack_fields-row ws vs rest (omega arith) h.1,
)

-- Each row has a value for each field, and the values fit.
abbrev pub RowsFit : List ℕ → List (List ℕ) → Type 0
RowsFit ws rows = All (λ row. (length row ≡ length ws) × Fits ws row) rows

unfoldable pub rows_bytes : List ℕ → List (List ℕ) → Bytes
rows_bytes ws [] = []
rows_bytes ws (row ∷ rows) = row_bytes ws row ++ rows_bytes ws rows

pub pack_rows-bytes :
    (ws : List ℕ) (rows : List (List ℕ))
    → RowsFit ws rows
    → pack_rows ws rows ≡ ok (rows_bytes ws rows)
unfolding pack_rows rows_bytes
pack_rows-bytes ws [] h = refl
pack_rows-bytes ws (row ∷ rows) h = rw (pack_fields-row ws row h.0.1, pack_rows-bytes ws rows h.1)

pub pack_rows-Fits :
    (ws : List ℕ) (rows : List (List ℕ)) (bytes : Bytes)
    → pack_rows ws rows ≡ ok bytes
    → All (Fits ws) rows
unfolding pack_rows
pack_rows-Fits ws [] bytes h = tt
pack_rows-Fits ws (row ∷ rows) bytes h =
    let (b, p, q) = >>=-eq-ok (pack_fields ws row) _ h in
    let (r, p', q') = >>=-eq-ok (pack_rows ws rows) _ q in
    (pack_fields-Fits ws row b p, pack_rows-Fits ws rows r p')

pub unpack_rows-bytes :
    (ws : List ℕ) (rows : List (List ℕ)) (rest : Bytes)
    → RowsFit ws rows
    → unpack_rows ws (length rows) (rows_bytes ws rows ++ rest) ≡ ok (rows, rest)
unfolding unpack_rows rows_bytes
unpack_rows-bytes ws [] rest h = refl
unpack_rows-bytes ws (row ∷ rows) rest h = rw (
  append_assoc (row_bytes ws row) (rows_bytes ws rows) rest,
  unpack_fields-row ws row (rows_bytes ws rows ++ rest) h.0.0 h.0.1,
  unpack_rows-bytes ws rows rest h.1,
)

rows_fit :
    (ws : List ℕ) (rows : List (List ℕ))
    → All (λ row. length row ≡ length ws) rows
    → All (Fits ws) rows
    → RowsFit ws rows
rows_fit ws [] h k = tt
rows_fit ws (row ∷ rows) h k = ((h.0, k.0), rows_fit ws rows h.1 k.1)

-- A table that was packed gives its header back, and then its rows, with nothing left.
pub unpack-pack_table :
    (hl header rl : List ℕ) (rows : List (List ℕ)) (bytes : Bytes)
    → length header ≡ length hl
    → All (λ row. length row ≡ length rl) rows
    → pack_table hl header rl rows ≡ ok bytes
    → (rest : Bytes) × (unpack_fields hl bytes ≡ ok (header, rest))
      × (unpack_rows rl (length rows) rest ≡ ok (rows, []))
unfolding pack_table
unpack-pack_table hl header rl rows bytes e es h =
    let (hb, p, q) = >>=-eq-ok (pack_fields hl header) _ h in
    let (rb, p', q') = >>=-eq-ok (pack_rows rl rows) _ q in
    let fits = pack_fields-Fits hl header hb p in
    let fit = rows_fit rl rows es (pack_rows-Fits rl rows rb p') in
    let whole : bytes ≡ row_bytes hl header ++ rows_bytes rl rows =
      cc (q', p, p', pack_fields-row hl header fits, pack_rows-bytes rl rows fit) in
    (
      rows_bytes rl rows,
      rw whole (unpack_fields-row hl header (rows_bytes rl rows) e fits),
      rw append-nil at (unpack_rows-bytes rl rows [] fit),
    )

fit_rows :
    (ws : List ℕ) (rows : List (List ℕ))
    → All (Fits ws) rows
    → (bytes : Bytes) × (pack_rows ws rows ≡ ok bytes)
unfolding pack_rows
fit_rows ws [] h = ([], refl)
fit_rows ws (row ∷ rows) h =
    let (rest, p) = fit_rows ws rows h.1 in
    (row_bytes ws row ++ rest, rw (pack_fields-row ws row h.0, p))

-- A table whose values fit their fields is packed.
pub pack_table-Fits :
    (hl header rl : List ℕ) (rows : List (List ℕ))
    → Fits hl header
    → All (Fits rl) rows
    → (bytes : Bytes) × (pack_table hl header rl rows ≡ ok bytes)
unfolding pack_table
pack_table-Fits hl header rl rows h k =
    let (rest, p) = fit_rows rl rows k in
    (row_bytes hl header ++ rest, rw (pack_fields-row hl header h, p))
