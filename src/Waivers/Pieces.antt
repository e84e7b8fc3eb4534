-- ===== src/Waivers/Pieces.antt =====
-- waivers.py: how a pattern is cut into pieces.
use covsight_core.Prelude.{
  ℕ, ◌≡◌, ◌≢◌, ◌↔◌, List, [], ◌∷◌, true, false, ◌==◌, arith, refl, ap, sym, ◌∙◌, Bool-cases, inl,
  inr,
}
use mathlib.Core.Path.{subst}
use covsight_core.Prelude.Text.{Text}
use covsight_core.Waivers.Glob.{
  Piece, directories, anything, segment, literal, glob_to_regex, glob_match,
}
use covsight_core.Waivers.Spelling.{Matches, glob_match-Matches}

-- The text does not begin with a character.
abbrev pub NotFirst : ℕ → Text → Type 0
NotFirst k [] = Unit
NotFirst k (c ∷ cs) = c ≢ k

-- A pattern is the spellings of the pieces in a row: `**/`, `**` that no slash follows, `*` that no `*`
-- follows, and a character that is not `*`.
abbrev pub Parses : List Piece → Text → Type 0
Parses [] p = p ≡ []
Parses (directories ∷ ps) p = (q : Text) × (p ≡ b'*' ∷ b'*' ∷ b'/' ∷ q) × Parses ps q
Parses (anything ∷ ps) p = (q : Text) × (p ≡ b'*' ∷ b'*' ∷ q) × NotFirst b'/' q × Parses ps q
Parses (segment ∷ ps) p = (q : Text) × (p ≡ b'*' ∷ q) × NotFirst b'*' q × Parses ps q
Parses (literal c ∷ ps) p = (q : Text) × (p ≡ c ∷ q) × (c ≢ b'*') × Parses ps q

regex-directories :
    (q : Text) → glob_to_regex (b'*' ∷ b'*' ∷ b'/' ∷ q) ≡ directories ∷ glob_to_regex q
unfolding glob_to_regex
regex-directories q = refl

regex-anything :
    (q : Text) → NotFirst b'/' q → glob_to_regex (b'*' ∷ b'*' ∷ q) ≡ anything ∷ glob_to_regex q
unfolding glob_to_regex
regex-anything [] h = refl
regex-anything (c ∷ q) h = ground arith

regex-segment : (q : Text) → NotFirst b'*' q → glob_to_regex (b'*' ∷ q) ≡ segment ∷ glob_to_regex q
unfolding glob_to_regex
regex-segment [] h = refl
regex-segment (b ∷ []) h = ground arith
regex-segment (b ∷ d ∷ q) h = ground arith

regex-literal : (c : ℕ) (q : Text) → c ≢ b'*' → glob_to_regex (c ∷ q) ≡ literal c ∷ glob_to_regex q
unfolding glob_to_regex
regex-literal c [] h = ground arith
regex-literal c (b ∷ []) h = ground arith
regex-literal c (b ∷ d ∷ q) h = ground arith

-- A pattern is cut into pieces in one way.
Parses-only : (ps : List Piece) (p : Text) → Parses ps p → ps ≡ glob_to_regex p
unfolding glob_to_regex
Parses-only [] p e = sym (ap glob_to_regex e)
Parses-only (directories ∷ ps) p (q, e, h) =
    ap (◌∷◌ directories) (Parses-only ps q h) ∙ sym (ap glob_to_regex e ∙ regex-directories q)
Parses-only (anything ∷ ps) p (q, e, apart, h) =
    ap (◌∷◌ anything) (Parses-only ps q h) ∙ sym (ap glob_to_regex e ∙ regex-anything q apart)
Parses-only (segment ∷ ps) p (q, e, apart, h) =
    ap (◌∷◌ segment) (Parses-only ps q h) ∙ sym (ap glob_to_regex e ∙ regex-segment q apart)
Parses-only (literal c ∷ ps) p (q, e, apart, h) =
    ap (◌∷◌ (literal c)) (Parses-only ps q h) ∙ sym (ap glob_to_regex e ∙ regex-literal c q apart)

apart_of : (c k : ℕ) → (c == k) ≡ false → c ≢ k
apart_of c k h same = ground arith

same_of : (c k : ℕ) → (c == k) ≡ true → c ≡ k
same_of c k h = ground arith

Parses-literal :
    (c : ℕ) (p : Text)
    → c ≢ b'*'
    → Parses (glob_to_regex p) p
    → Parses (glob_to_regex (c ∷ p)) (c ∷ p)
Parses-literal c p h rest =
    subst (λ ps. Parses ps (c ∷ p)) (sym (regex-literal c p h)) (p, refl, h, rest)

Parses-cons :
    (a : ℕ) (p : Text)
    → Parses (glob_to_regex p) p
    → Parses (glob_to_regex (b'*' ∷ p)) (b'*' ∷ p)
    → Parses (glob_to_regex (a ∷ p)) (a ∷ p)
Parses-cons a p rest starred = elim (Bool-cases (a == b'*')) [
  | inl star ↦
      subst (λ k. Parses (glob_to_regex (k ∷ p)) (k ∷ p)) (sym (same_of a b'*' star)) starred
  | inr other ↦ Parses-literal a p (apart_of a b'*' other) rest
]

-- Every pattern is cut into the pieces of its regular expression.
mutual
  unfolding glob_to_regex

  Parses-regex : (p : Text) → Parses (glob_to_regex p) p
  Parses-regex [] = refl
  Parses-regex (a ∷ p) = Parses-cons a p (Parses-regex p) (after_star p)

  after_star : (p : Text) → Parses (glob_to_regex (b'*' ∷ p)) (b'*' ∷ p)
  after_star [] = ([], refl, tt, refl)
  after_star (b ∷ p) = elim (Bool-cases (b == b'*')) [
    | inl star ↦
        subst (λ k. Parses (glob_to_regex (b'*' ∷ k ∷ p)) (b'*' ∷ k ∷ p))
          (sym (same_of b b'*' star)) (after_stars p)
    | inr other ↦
        let c = apart_of b b'*' other in
        subst (λ ps. Parses ps (b'*' ∷ b ∷ p)) (sym (regex-segment (b ∷ p) c))
          (b ∷ p, refl, c, Parses-literal b p c (Parses-regex p))
  ]

  after_stars : (p : Text) → Parses (glob_to_regex (b'*' ∷ b'*' ∷ p)) (b'*' ∷ b'*' ∷ p)
  after_stars [] = ([], refl, tt, refl)
  after_stars (c ∷ p) = elim (Bool-cases (c == b'/')) [
    | inl slash ↦
        subst (λ k. Parses (glob_to_regex (b'*' ∷ b'*' ∷ k ∷ p)) (b'*' ∷ b'*' ∷ k ∷ p))
          (sym (same_of c b'/' slash)) (p, refl, Parses-regex p)
    | inr other ↦
        let apart = apart_of c b'/' other in
        subst (λ ps. Parses ps (b'*' ∷ b'*' ∷ c ∷ p)) (sym (regex-anything (c ∷ p) apart))
          (c ∷ p, refl, apart, Parses-cons c p (Parses-regex p) (after_star p))
  ]

-- A pattern matches exactly the texts that can be cut into words of its pieces in a row, where the
-- pattern is the spellings of the pieces: `**/` stands for nothing or for characters with a slash at
-- their end, `**` without a slash behind it for any characters (neither takes a line break), another `*`
-- for any characters but a slash, and every other character for itself.
pub glob_match-Parses :
    (pattern t : Text)
    → (glob_match pattern t ≡ true) ↔ ((ps : List Piece) × Parses ps pattern × Matches ps t)
glob_match-Parses pattern t = (
  (λ h. (glob_to_regex pattern, Parses-regex pattern, (glob_match-Matches pattern t).0 h)),
  (λ h.
      let (ps, parsed, m) = h in
      (glob_match-Matches pattern t).1
        (subst (λ qs. Matches qs t) (Parses-only ps pattern parsed) m)),
)
