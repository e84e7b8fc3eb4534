-- ===== src/Prelude/Text.antt =====
-- Text as its code points, with the decimal formats `%d` and `%0Nd` and the match of a run of digits.
use Prim.Native.Nat.{ℕ, zero, suc, ◌+◌, ◌-◌, ◌*◌, ◌/◌, ◌%◌, ◌<◌, ◌≤◌}
use Prim.Native.Char.{code}
use Prim.Native.String.{String}
use mathlib.Core.Path.{◌≡◌, refl, ap, ◌∙◌}
use mathlib.Core.Logic.{◌↔◌, ◌⊎◌, ◌≢◌, inl, inr}
use mathlib.Core.Bool.{Bool, true, false, ◌&&◌}
use mathlib.Core.Option.{Option, none, some}
use mathlib.Core.List.{List, [], ◌∷◌, ◌++◌, append_assoc}
use native.Mathlib.Omega.{arith}
use covsight_core.Prelude.Tests.{ltb, lt→ltb, leb, ◌==◌, if◌then◌else◌}
use covsight_core.Prelude.Lists.{length, replicate}
use covsight_core.Prelude.Keys.{Key}

abbrev pub Text : Type 0
Text = List ℕ

-- The code points of an ASCII literal.
abbrev pub codes : String → Text
codes String.[] = []
codes (String.◌∷◌ c s) = code c ∷ codes s

abbrev pub text_same : Text → Text → Bool
text_same [] [] = true
text_same [] (b ∷ bs) = false
text_same (a ∷ as') [] = false
text_same (a ∷ as') (b ∷ bs) = a == b && text_same as' bs

pub text_same_iff : (a b : Text) → (text_same a b ≡ true) ↔ (a ≡ b)
text_same_iff [] [] = ground arith
text_same_iff [] (b ∷ bs) = ground arith
text_same_iff (a ∷ as') [] = ground arith
text_same_iff (a ∷ as') (b ∷ bs) = ground (arith, text_same_iff as' bs)

instance abbrev pub text_key : Key Text
text_key = record { same = text_same; same_iff = text_same_iff }

-- The decimal digits of a number, with fuel; `n` rounds are enough for `n > 0`.
unfoldable pub decimal_loop : ℕ → ℕ → Text
decimal_loop zero n = []
decimal_loop (suc f) n =
    let front = decimal_loop f (n / 10) in
    if ltb n 10 then (48 + n) ∷ [] else front ++ (48 + n % 10) ∷ []

-- "%d" % n
unfoldable pub decimal : ℕ → Text
decimal n = decimal_loop (suc n) n

-- "%0<width>d" % n
unfoldable pub zero_padded : ℕ → ℕ → Text
zero_padded width n = replicate (width - length (decimal n)) 48 ++ decimal n

abbrev pub is_digit : ℕ → Bool
is_digit c = leb 48 c && leb c 57

-- The value of a leading run of digits, most significant first, and what follows the run.
unfoldable pub read_digits : ℕ → Text → ℕ × Text
read_digits acc [] = (acc, [])
read_digits acc (c ∷ cs) =
    let more = read_digits (acc * 10 + (c - 48)) cs in if is_digit c then more else (acc, c ∷ cs)

-- What is left of a text behind a prefix.
unfoldable pub strip_prefix : Text → Text → Option Text
strip_prefix [] t = some t
strip_prefix (p ∷ ps) [] = none
strip_prefix (p ∷ ps) (c ∷ cs) = let rest = strip_prefix ps cs in if p == c then rest else none

pub strip_prefix-append : (p t : Text) → strip_prefix p (p ++ t) ≡ some t
unfolding strip_prefix
strip_prefix-append [] t = refl
strip_prefix-append (c ∷ p) t = ground (arith, strip_prefix-append p t)

-- A text that does not go on with a digit.
abbrev pub StopsDigits : Text → Type 0
StopsDigits [] = Unit
StopsDigits (c ∷ cs) = is_digit c ≡ false

pub read_digits-stop : (acc : ℕ) (t : Text) → StopsDigits t → read_digits acc t ≡ (acc, t)
unfolding read_digits
read_digits-stop acc [] h = refl
read_digits-stop acc (c ∷ cs) h = rw h

one_digit :
    (acc d : ℕ) (t : Text) → d < 10 → read_digits acc ((48 + d) ∷ t) ≡ read_digits (acc * 10 + d) t
unfolding read_digits
one_digit acc d t h = ground (arith, back)
  where
    back : 48 + d - 48 ≡ d
    back = omega arith

read_decimal_loop :
    (f n : ℕ) (t : Text) → n < f → read_digits 0 (decimal_loop f n ++ t) ≡ read_digits n t
unfolding decimal_loop
read_decimal_loop zero n t h = absurd (omega arith)
read_decimal_loop (suc f) n t h = elim (small n) [
  | inl lt ↦
      rw (lt→ltb n 10 lt) (one_digit 0 n t lt ∙ ap (λ (k : ℕ). read_digits k t) (omega arith))
  | inr le ↦
      rw (not_ltb le, append_assoc)
        (read_decimal_loop f (n / 10) ((48 + n % 10) ∷ t) (omega arith)
          ∙ one_digit (n / 10) (n % 10) t (omega arith)
          ∙ ap (λ (k : ℕ). read_digits k t) (omega arith))
]
  where
    small : (n : ℕ) → (n < 10) ⊎ (10 ≤ n)
    small n = grind arith

    not_ltb : 10 ≤ n → ltb n 10 ≡ false
    not_ltb le = ground arith

read_zeros : (k : ℕ) (t : Text) → read_digits 0 (replicate k 48 ++ t) ≡ read_digits 0 t
read_zeros zero t = refl
read_zeros (suc k) t = one_digit 0 0 (replicate k 48 ++ t) (omega arith) ∙ read_zeros k t

-- A number is read back with the text that follows, if that does not go on with a digit.
pub read-decimal : (n : ℕ) (t : Text) → StopsDigits t → read_digits 0 (decimal n ++ t) ≡ (n, t)
unfolding decimal
read-decimal n t h = read_decimal_loop (suc n) n t (omega arith) ∙ read_digits-stop n t h

-- A padded number is read back with the text that follows, if that does not go on with a digit.
pub read-zero_padded :
    (width n : ℕ) (t : Text) → StopsDigits t → read_digits 0 (zero_padded width n ++ t) ≡ (n, t)
unfolding zero_padded decimal
read-zero_padded width n t h = rw append_assoc (
    read_zeros (width - length (decimal n)) (decimal n ++ t)
    ∙ read_decimal_loop (suc n) n t (omega arith)
    ∙ read_digits-stop n t h)

-- A padded number begins with a digit.
abbrev pub starts_with_digit : Text → Bool
starts_with_digit [] = false
starts_with_digit (c ∷ cs) = is_digit c

starts-append : (a b : Text) → starts_with_digit a ≡ true → starts_with_digit (a ++ b) ≡ true
starts-append [] b h = cc
starts-append (c ∷ a) b h = h

decimal_loop-starts : (f n : ℕ) → n < f → starts_with_digit (decimal_loop f n) ≡ true
unfolding decimal_loop
decimal_loop-starts zero n h = absurd (omega arith)
decimal_loop-starts (suc f) n h = ground (
  arith,
  decimal_loop-starts f (n / 10),
  starts-append (decimal_loop f (n / 10)) ((48 + n % 10) ∷ []),
)

pub zero_padded-starts :
    (width n : ℕ) (t : Text) → starts_with_digit (zero_padded width n ++ t) ≡ true
unfolding zero_padded decimal
zero_padded-starts width n t =
    starts-append (replicate (width - length (decimal n)) 48 ++ decimal n) t (
      padded (width - length (decimal n)) (decimal n) (decimal_loop-starts (suc n) n (omega arith)))
  where
    padded :
        (k : ℕ) (s : Text)
        → starts_with_digit s ≡ true
        → starts_with_digit (replicate k 48 ++ s) ≡ true
    padded zero s h = h
    padded (suc k) s h = refl

pub text_differ : (a b : Text) → a ≢ b → text_same a b ≡ false
text_differ a b h = ground (arith, text_same_iff a b)
