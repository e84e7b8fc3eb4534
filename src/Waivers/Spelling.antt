-- ===== src/Waivers/Spelling.antt =====
-- waivers.py: which texts a pattern matches.
use covsight_core.Prelude.{
  and_left, and_right, ℕ, ◌≡◌, ◌≢◌, ◌⊎◌, ◌↔◌, List, [], ◌∷◌, ◌++◌, Bool, true, not, ◌&&◌, ◌||◌,
  ◌==◌, All, arith, refl, ap, ◌∙◌, Bool-cases, inl, inr,
}
use covsight_core.Prelude.Text.{Text}
use covsight_core.Waivers.Glob.{
  Piece, directories, anything, segment, literal, glob_to_regex, star, slash_then, plus_slash,
  one_of, fullmatch, glob_match,
}

-- The texts that a piece stands for: any number of directories, each with its slash, or none; any
-- characters but a line break; any but a slash; one character.
abbrev pub NotBreak : ℕ → Type 0
NotBreak c = c ≢ 10

abbrev pub NotSlash : ℕ → Type 0
NotSlash c = c ≢ b'/'

abbrev pub Spells : Piece → Text → Type 0
Spells directories w = (w ≡ []) ⊎ ((v : Text) × (v ≢ []) × All NotBreak v × (w ≡ v ++ b'/' ∷ []))
Spells anything w = All NotBreak w
Spells segment w = All NotSlash w
Spells (literal c) w = w ≡ c ∷ []

-- A text is the words of the pieces in a row.
abbrev pub Matches : List Piece → Text → Type 0
Matches [] t = t ≡ []
Matches (p ∷ ps) t = (w : Text) × (rest : Text) × (t ≡ w ++ rest) × Spells p w × Matches ps rest

module _ (R : Text → Type 0) (rest : Text → Bool) (sound : (t : Text) → rest t ≡ true → R t)
    (complete : (t : Text) → R t → rest t ≡ true) where
  module _ (P : ℕ → Type 0) (kind : ℕ → Bool) (is : (c : ℕ) → kind c ≡ true → P c)
      (has : (c : ℕ) → P c → kind c ≡ true) where
    star_sound :
        (t : Text)
        → star kind rest t ≡ true
        → (w : Text) × (r : Text) × (t ≡ w ++ r) × All P w × R r
    unfolding star
    star_sound [] h = ([], [], refl, tt, sound [] h)
    star_sound (c ∷ cs) h = elim (Bool-cases (rest (c ∷ cs))) [
      | inl here ↦ ([], c ∷ cs, refl, tt, sound (c ∷ cs) here)
      | inr later ↦
          let both : (kind c && star kind rest cs) ≡ true = rw later at h in
          let (w, r, e, all, q) = star_sound cs (and_right (kind c) _ both) in
          (c ∷ w, r, ap (◌∷◌ c) e, (is c (and_left (kind c) _ both), all), q)
    ]

    star_complete : (w r : Text) → All P w → R r → star kind rest (w ++ r) ≡ true
    unfolding star
    star_complete [] [] all q = complete [] q
    star_complete [] (c ∷ r) all q = rw (complete (c ∷ r) q)
    star_complete (c ∷ w) r all q = ground (arith, has c all.0, star_complete w r all.1 q)

  slash_then_sound : (t : Text) → slash_then rest t ≡ true → (r : Text) × (t ≡ b'/' ∷ r) × R r
  unfolding slash_then
  slash_then_sound [] h = absurd (cc)
  slash_then_sound (c ∷ cs) h = (cs, ground arith, sound cs (and_right (c == b'/') (rest cs) h))

  plus_slash_sound :
      (t : Text)
      → plus_slash rest t ≡ true
      → (v : Text) × (r : Text) × (t ≡ (v ++ b'/' ∷ []) ++ r) × (v ≢ []) × All NotBreak v × R r
  unfolding plus_slash
  plus_slash_sound [] h = absurd (cc)
  plus_slash_sound (c ∷ cs) h =
      let within : (slash_then rest cs || plus_slash rest cs) ≡ true =
        and_right (not (c == 10)) _ h in
      let kept : c ≢ 10 = not_break (and_left (not (c == 10)) _ h) in
      elim (Bool-cases (slash_then rest cs)) [
        | inl here ↦
            let (r, e, q) = slash_then_sound cs here in
            (c ∷ [], r, ap (◌∷◌ c) e, (λ none. cc), (kept, tt), q)
        | inr later ↦
            let more : plus_slash rest cs ≡ true = rw later at within in
            let (v, r, e, some_v, all, q) = plus_slash_sound cs more in
            (c ∷ v, r, ap (◌∷◌ c) e, (λ none. cc), (kept, all), q)
      ]
    where
      not_break : not (c == 10) ≡ true → c ≢ 10
      not_break e same = ground arith

  plus_slash_complete :
      (v r : Text) → v ≢ [] → All NotBreak v → R r → plus_slash rest ((v ++ b'/' ∷ []) ++ r) ≡ true
  unfolding plus_slash slash_then
  plus_slash_complete [] r some_v all q = absurd (some_v refl)
  plus_slash_complete (c ∷ []) r some_v all q = ground (arith, complete r q)
  plus_slash_complete (c ∷ d ∷ v) r some_v all q =
      ground (arith, plus_slash_complete (d ∷ v) r (λ none. cc) all.1 q)

not_eq_sound : (k c : ℕ) → not (c == k) ≡ true → c ≢ k
not_eq_sound k c e same = ground arith

not_eq_complete : (k c : ℕ) → c ≢ k → not (c == k) ≡ true
not_eq_complete k c h = ground arith

mutual
  unfolding fullmatch one_of

  fullmatch_sound : (ps : List Piece) (t : Text) → fullmatch ps t ≡ true → Matches ps t
  fullmatch_sound [] [] h = refl
  fullmatch_sound [] (c ∷ cs) h = absurd (cc)
  fullmatch_sound (directories ∷ ps) t h = elim (Bool-cases (fullmatch ps t)) [
    | inl here ↦ ([], t, refl, inl refl, fullmatch_sound ps t here)
    | inr later ↦
        let more : plus_slash (fullmatch ps) t ≡ true = rw later at h in
        let (v, r, e, some_v, all, q) =
          plus_slash_sound (Matches ps) (fullmatch ps) (fullmatch_sound ps) (fullmatch_complete ps)
            t more in
        (v ++ b'/' ∷ [], r, e, inr (v, some_v, all, refl), q)
  ]
  fullmatch_sound (anything ∷ ps) t h =
      star_sound (Matches ps) (fullmatch ps) (fullmatch_sound ps) (fullmatch_complete ps) NotBreak
        (λ c. not (c == 10)) (not_eq_sound 10) (not_eq_complete 10) t h
  fullmatch_sound (segment ∷ ps) t h =
      star_sound (Matches ps) (fullmatch ps) (fullmatch_sound ps) (fullmatch_complete ps) NotSlash
        (λ c. not (c == b'/')) (not_eq_sound b'/') (not_eq_complete b'/') t h
  fullmatch_sound (literal a ∷ ps) [] h = absurd (cc)
  fullmatch_sound (literal a ∷ ps) (c ∷ cs) h = (
    c ∷ [],
    cs,
    refl,
    ground arith,
    fullmatch_sound ps cs (and_right (a == c) (fullmatch ps cs) h),
  )

  fullmatch_complete : (ps : List Piece) (t : Text) → Matches ps t → fullmatch ps t ≡ true
  fullmatch_complete [] t h = rw h
  fullmatch_complete (directories ∷ ps) t (w, r, e, inl none, q) =
      let same : t ≡ r = e ∙ ap (λ x. x ++ r) none in rw (same, fullmatch_complete ps r q) refl
  fullmatch_complete (directories ∷ ps) t (w, r, e, inr (v, some_v, all, spelled), q) =
      let same : t ≡ (v ++ b'/' ∷ []) ++ r = e ∙ ap (λ x. x ++ r) spelled in
      rw same (
        ground (
          arith,
          plus_slash_complete (Matches ps) (fullmatch ps) (fullmatch_sound ps)
              (fullmatch_complete ps) v r some_v all q,
        ))
  fullmatch_complete (anything ∷ ps) t (w, r, e, all, q) = rw e (
      star_complete (Matches ps) (fullmatch ps) (fullmatch_sound ps) (fullmatch_complete ps)
        NotBreak (λ c. not (c == 10)) (not_eq_sound 10) (not_eq_complete 10) w r all q)
  fullmatch_complete (segment ∷ ps) t (w, r, e, all, q) = rw e (
      star_complete (Matches ps) (fullmatch ps) (fullmatch_sound ps) (fullmatch_complete ps)
        NotSlash (λ c. not (c == b'/')) (not_eq_sound b'/') (not_eq_complete b'/') w r all q)
  fullmatch_complete (literal a ∷ ps) t (w, r, e, spelled, q) =
      let same : t ≡ a ∷ r = e ∙ ap (λ x. x ++ r) spelled in
      rw same (ground (arith, fullmatch_complete ps r q))

pub glob_match-Matches :
    (pattern t : Text) → (glob_match pattern t ≡ true) ↔ Matches (glob_to_regex pattern) t
unfolding glob_match
glob_match-Matches pattern t =
    (fullmatch_sound (glob_to_regex pattern) t, fullmatch_complete (glob_to_regex pattern) t)
