-- ===== src/Contrib/Names.antt =====
-- contrib.py, member_merge.py: both readings of a member's name give the index in it.
use mathlib.Core.Option.{some-injective}
use covsight_core.Prelude.{
  ℕ, zero, suc, ◌+◌, ◌-◌, ◌≡◌, [], ◌∷◌, ◌++◌, All, All-append, true, some, ◌&&◌, ◌/◌, ◌%◌,
  Bool-cases, inl, inr, leb, ltb, if◌then◌else◌, length, take, drop, length-append,
  take-length-append, drop-length-append, arith, refl, ap, sym, ◌∙◌,
}
use covsight_core.Prelude.Int.{pos}
use covsight_core.Prelude.Text.{
  Text, decimal, decimal_loop, strip_prefix, strip_prefix-append, is_digit, text_same,
}
use covsight_core.Contrib.{
  PyInt, member_contrib_dir, member_suffix, member_name, is_stripped, rstrip_bin, before_dot,
  strip_bin, index_of, contrib_index, hist_idx_of,
}

-- Characters of digits.
abbrev AreDigits : Text → Type 0
AreDigits t = All (λ c. is_digit c ≡ true) t

decimal_loop-AreDigits : (f n : ℕ) → AreDigits (decimal_loop f n)
unfolding decimal_loop
decimal_loop-AreDigits zero n = tt
decimal_loop-AreDigits (suc f) n = elim (Bool-cases (ltb n 10)) [
  | inl small ↦ rw small (ground arith, tt)
  | inr large ↦ rw large (
      All-append _ (decimal_loop f (n / 10)) ((48 + n % 10) ∷ [])
        (decimal_loop-AreDigits f (n / 10)) (ground arith, tt))
]

rstrip_bin-digits : (t : Text) → AreDigits t → rstrip_bin (t ++ member_suffix) ≡ t
unfolding rstrip_bin is_stripped
rstrip_bin-digits [] h = refl
rstrip_bin-digits (c ∷ t) h = ground (arith, rstrip_bin-digits t h.1)

before_dot-digits : (t : Text) → AreDigits t → before_dot t ≡ t
unfolding before_dot
before_dot-digits [] h = refl
before_dot-digits (c ∷ t) h = ground (arith, before_dot-digits t h.1)

strip_bin-suffix : (t : Text) → strip_bin (t ++ member_suffix) ≡ t
unfolding strip_bin
strip_bin-suffix t =
    ap
      (λ n.
        if leb 4 (length whole) && text_same (drop n whole) member_suffix
        then take n whole
        else whole)
      size
    ∙ ap
        (λ b.
          if b && text_same (drop (length t) whole) member_suffix
          then take (length t) whole
          else whole)
        long
    ∙ ap (λ s. if text_same s member_suffix then take (length t) whole else whole)
        (drop-length-append t member_suffix)
    ∙ take-length-append t member_suffix
  where
    whole : Text
    whole = t ++ member_suffix

    size : length (t ++ member_suffix) - 4 ≡ length t
    size = omega (arith, length-append t member_suffix)

    long : leb 4 (length (t ++ member_suffix)) ≡ true
    long = ground (arith, length-append t member_suffix)

module _ (py : PyInt) where
  pub contrib_index-member_name :
      (index : ℕ) → contrib_index py (member_name index) ≡ some (pos index)
  unfolding contrib_index index_of member_name
  contrib_index-member_name index =
      ap (index_of py) (strip_prefix-append member_contrib_dir (decimal index ++ member_suffix))
      ∙ ap py.int_of (strip_bin-suffix (decimal index))
      ∙ py.int_of-decimal index

  pub hist_idx_of-member_name :
      (index : ℕ)
      → hist_idx_of py (strip_prefix member_contrib_dir (member_name index)) ≡ some (pos index)
  unfolding hist_idx_of member_name decimal
  hist_idx_of-member_name index =
      let digits = decimal_loop-AreDigits (suc index) index in
      ap (hist_idx_of py) (strip_prefix-append member_contrib_dir (decimal index ++ member_suffix))
      ∙ ap (λ t. py.int_of (before_dot t)) (rstrip_bin-digits (decimal index) digits)
      ∙ ap py.int_of (before_dot-digits (decimal index) digits)
      ∙ py.int_of-decimal index

  -- Two members of one name are of one history node.
  pub member_name-injective : (i j : ℕ) → member_name i ≡ member_name j → i ≡ j
  member_name-injective i j same = pos_injective (
      some-injective (pos i) (pos j) (
        sym (contrib_index-member_name i)
        ∙ ap (contrib_index py) same
        ∙ contrib_index-member_name j))
    where
      pos_injective : pos i ≡ pos j → i ≡ j
      pos_injective p = cc
