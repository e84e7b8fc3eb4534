-- ===== src/Counts/RoundTrip.antt =====
-- Reading back a count array, in whichever mode the writer chose it.
use covsight_core.Prelude.{
  ℕ, ◌+◌, ◌^◌, ◌<◌, ◌≤◌, ◌≡◌, ◌≢◌, List, [], ◌∷◌, ◌++◌, Bool, true, false, ◌&&◌, ok, ltb, ◌==◌,
  length, take, all, any, arith, refl, ap, append_assoc, append-nil, inl, inr, Bool-cases, lt→ltb,
  All, ◌%◌,
}
use covsight_core.Varint.{Bytes, encode_nat, encode_varint, decode_varints}
use covsight_core.Varint.Encode.{encode_nat-small, encode_nat-large, small_or_large}
use covsight_core.Varint.RoundTrip.{
  encodings, encode_varints-encodings, decode_varints-encodings, decode-encode_nat,
}
use covsight_core.Pack.{le_bytes, pack_uint}
use covsight_core.Pack.RoundTrip.{unpack-le_bytes}
use covsight_core.Counts.{
  serialize, deserialize, pack_u32s, unpack_u32s, use_varint, one_byte_each, read_varints,
  mode_varint, mode_uint32,
}

&&-right : (a b : Bool) → (a && b) ≡ true → b ≡ true
&&-right a b h = ground arith

not_small : (v : ℕ) (b : Bool) → 128 ≤ v → (ltb (v % 128 + 128) 0x80 && b) ≢ true
not_small v b large h = ground arith

-- A payload whose first bytes, one for each value, are all below 0x80 is the list of the values.
short_payload :
    (vs : List ℕ)
    → all (λ b. ltb b 0x80) (take (length vs) (encodings vs)) ≡ true
    → take (length vs) (encodings vs) ≡ vs
unfolding encodings
short_payload [] h = refl
short_payload (v ∷ vs) h = elim (small_or_large v) [
  | inl small ↦
      rw (encode_nat-small v small) (
        ap (◌∷◌ v)
          (short_payload vs (&&-right (ltb v 0x80) _ (rw (encode_nat-small v small) at h))))
  | inr large ↦ absurd (not_small v _ large (rw (encode_nat-large v large) at h))
]

read_varints-encodings : (vs : List ℕ) → read_varints (length vs) (encodings vs) ≡ ok vs
unfolding read_varints
read_varints-encodings vs =
    elim (Bool-cases (one_byte_each (length vs) (take (length vs) (encodings vs)))) [
      | inl fast ↦ rw fast (
          ap ok (
            short_payload vs (
              &&-right (length (take (length vs) (encodings vs)) == length vs) _
                (unfold one_byte_each in fast))))
      | inr slow ↦ rw (slow, whole) refl
    ]
  where
    whole : decode_varints (length vs) (encodings vs) ≡ ok (vs, [])
    whole = rw append-nil at (decode_varints-encodings vs [])

abbrev IsU32 : ℕ → Type 0
IsU32 c = c < 256 ^ 4

pack_u32s-unpack :
    (cs : List ℕ) (rest : Bytes)
    → All IsU32 cs
    → (bytes : Bytes) × (pack_u32s cs ≡ ok bytes)
      × (unpack_u32s (length cs) (bytes ++ rest) ≡ ok (cs, rest))
unfolding pack_u32s unpack_u32s pack_uint
pack_u32s-unpack [] rest h = ([], refl, refl)
pack_u32s-unpack (c ∷ cs) rest h =
    let (bytes, p, u) = pack_u32s-unpack cs rest h.1 in
    (
      le_bytes 4 c ++ bytes,
      rw (lt→ltb c (256 ^ 4) h.0, p),
      rw (append_assoc (le_bytes 4 c) bytes rest, unpack-le_bytes 4 c (bytes ++ rest) h.0, u),
    )

not_large : (cs : List ℕ) → any (λ c. ltb 0xFFFFFFFF c) cs ≡ false → All IsU32 cs
not_large [] h = tt
not_large (c ∷ cs) h = (ground arith, not_large cs (ground arith))

no_large :
    (cs : List ℕ) (varint_bytes : Bytes)
    → use_varint cs varint_bytes ≡ false
    → any (λ c. ltb 0xFFFFFFFF c) cs ≡ false
unfolding use_varint
no_large cs varint_bytes h = ground arith

-- Every list of counts is written, and what was written is read back as that list.
pub deserialize-serialize_counts :
    (counts : List ℕ)
    → (bytes : Bytes) × (serialize counts ≡ ok bytes) × (deserialize bytes ≡ ok counts)
unfolding serialize deserialize encode_varint
deserialize-serialize_counts counts = elim (Bool-cases (use_varint counts (encodings counts))) [
  | inl v ↦ (
    mode_varint ∷ encode_nat (length counts) ++ encodings counts,
    rw (encode_varints-encodings counts, v),
    rw (decode-encode_nat (length counts) (encodings counts)) (read_varints-encodings counts),
  )
  | inr f ↦
      let (fixed, p, u) =
        pack_u32s-unpack counts [] (not_large counts (no_large counts (encodings counts) f)) in
      (
        mode_uint32 ∷ encode_nat (length counts) ++ fixed,
        rw (encode_varints-encodings counts, f, p),
        rw (decode-encode_nat (length counts) fixed, rw append-nil at u),
      )
]
