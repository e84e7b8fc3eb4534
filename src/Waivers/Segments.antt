-- ===== src/Waivers/Segments.antt =====
-- waivers.py: a pattern with one `*` in it, and one with none.
use mathlib.Core.Path.{subst}
use covsight_core.Prelude.{
  ℕ, ◌≡◌, ◌≢◌, ◌↔◌, List, [], ◌∷◌, ◌++◌, true, All, map, arith, refl, ap, sym, ◌∙◌, append-nil,
}
use covsight_core.Prelude.Text.{Text}
use covsight_core.Waivers.Glob.{Piece, literal, segment, glob_to_regex, glob_match}
use covsight_core.Waivers.Spelling.{NotSlash, Matches, glob_match-Matches}

abbrev pub Plain : Text → Type 0
Plain a = All (λ c. c ≢ b'*') a

glob-literal : (c : ℕ) (x : Text) → c ≢ b'*' → glob_to_regex (c ∷ x) ≡ literal c ∷ glob_to_regex x
unfolding glob_to_regex
glob-literal c [] h = ground arith
glob-literal c (b ∷ []) h = ground arith
glob-literal c (b ∷ d ∷ cs) h = ground arith

glob-Plain : (a x : Text) → Plain a → glob_to_regex (a ++ x) ≡ map literal a ++ glob_to_regex x
glob-Plain [] x h = refl
glob-Plain (c ∷ a) x h = glob-literal c (a ++ x) h.0 ∙ ap (◌∷◌ (literal c)) (glob-Plain a x h.1)

glob-segment : (b : Text) → Plain b → glob_to_regex (b'*' ∷ b) ≡ segment ∷ glob_to_regex b
unfolding glob_to_regex
glob-segment [] h = refl
glob-segment (b ∷ []) h = ground arith
glob-segment (b ∷ d ∷ cs) h = ground arith

Matches-literals :
    (a : Text) (ps : List Piece) (r : Text) → Matches ps r → Matches (map literal a ++ ps) (a ++ r)
Matches-literals [] ps r h = h
Matches-literals (c ∷ a) ps r h = (c ∷ [], a ++ r, refl, refl, Matches-literals a ps r h)

literals-Matches :
    (a : Text) (ps : List Piece) (t : Text)
    → Matches (map literal a ++ ps) t
    → (r : Text) × (t ≡ a ++ r) × Matches ps r
literals-Matches [] ps t h = (t, refl, h)
literals-Matches (c ∷ a) ps t (w, rest, e, spelled, q) =
    let (r, e', m) = literals-Matches a ps rest q in
    (r, e ∙ ap (λ x. x ++ rest) spelled ∙ ap (◌∷◌ c) e', m)

regex-Plain : (b : Text) → Plain b → glob_to_regex b ≡ map literal b ++ []
unfolding glob_to_regex
regex-Plain b h = ap glob_to_regex (sym (append-nil b)) ∙ glob-Plain b [] h

segment_regex :
    (a b : Text)
    → Plain a
    → Plain b
    → glob_to_regex (a ++ b'*' ∷ b) ≡ map literal a ++ segment ∷ (map literal b ++ [])
segment_regex a b ha hb =
    glob-Plain a (b'*' ∷ b) ha
    ∙ ap (◌++◌ (map literal a)) (glob-segment b hb ∙ ap (◌∷◌ segment) (regex-Plain b hb))

-- A pattern with one `*` between two parts without one matches exactly the texts that begin with the one
-- part, end with the other and have no slash between them.
glob_match-segment :
    (a b t : Text)
    → Plain a
    → Plain b
    → (glob_match (a ++ b'*' ∷ b) t ≡ true) ↔ ((w : Text) × All NotSlash w × (t ≡ a ++ (w ++ b)))
glob_match-segment a b t ha hb =
    let regex = segment_regex a b ha hb in
    let spelled = glob_match-Matches (a ++ b'*' ∷ b) t in
    (
      (λ h.
          let (r, e, (w, rest, e', all, q)) =
            literals-Matches a (segment ∷ (map literal b ++ [])) t
              (subst (λ ps. Matches ps t) regex (spelled.0 h)) in
          let (last, e'', none) = literals-Matches b [] rest q in
          (w, all, e ∙ ap (◌++◌ a) (e' ∙ ap (◌++◌ w) (e'' ∙ ap (◌++◌ b) none ∙ append-nil b)))),
      (λ h.
          let (w, all, e) = h in
          let last : Matches (map literal b ++ []) b =
            subst (Matches (map literal b ++ [])) (append-nil b) (Matches-literals b [] [] refl) in
          spelled.1 (
            subst (λ ps. Matches ps t) (sym regex)
              (subst (Matches (map literal a ++ segment ∷ (map literal b ++ []))) (sym e) (
                Matches-literals a (segment ∷ (map literal b ++ [])) (w ++ b)
                  (w, b, refl, all, last))))),
    )
