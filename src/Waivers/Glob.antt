-- ===== src/Waivers/Glob.antt =====
-- waivers.py: _glob_to_regex and _glob_match.
use covsight_core.Prelude.{
  ℕ, List, [], ◌∷◌, Bool, true, false, not, ◌&&◌, ◌||◌, ◌==◌, if◌then◌else◌,
}
use covsight_core.Prelude.Text.{Text}

-- `(?:.+/)?`, `.*`, `[^/]*`, and one character.
pub data Piece : Type 0 where
  directories anything segment : Piece
  literal : ℕ → Piece

abbrev pub single : ℕ → Piece
single c = if c == b'*' then segment else literal c

unfoldable pub glob_to_regex : Text → List Piece
glob_to_regex [] = []
glob_to_regex (a ∷ []) = single a ∷ []
glob_to_regex (a ∷ b ∷ []) =
    let rest = glob_to_regex (b ∷ []) in
    if a == b'*' && b == b'*' then anything ∷ [] else single a ∷ rest
glob_to_regex (a ∷ b ∷ c ∷ cs) =
    let after_directories = glob_to_regex cs in
    let after_anything = glob_to_regex (c ∷ cs) in
    let after_single = glob_to_regex (b ∷ c ∷ cs) in
    if a == b'*' && (b == b'*' && c == b'/')
    then directories ∷ after_directories
    else if a == b'*' && b == b'*'
    then anything ∷ after_anything
    else single a ∷ after_single

-- Characters of one kind, as many as it takes, before what `rest` matches.
unfoldable pub star : (ℕ → Bool) → (Text → Bool) → Text → Bool
star kind rest [] = rest []
star kind rest (c ∷ cs) = let more = star kind rest cs in rest (c ∷ cs) || (kind c && more)

unfoldable pub slash_then : (Text → Bool) → Text → Bool
slash_then rest [] = false
slash_then rest (c ∷ cs) = c == b'/' && rest cs

-- `.+/` before what `rest` matches; `.` does not match a line break.
unfoldable pub plus_slash : (Text → Bool) → Text → Bool
plus_slash rest [] = false
plus_slash rest (c ∷ cs) =
    let more = plus_slash rest cs in not (c == 10) && (slash_then rest cs || more)

unfoldable pub one_of : ℕ → (Text → Bool) → Text → Bool
one_of a rest [] = false
one_of a rest (c ∷ cs) = a == c && rest cs

-- re.fullmatch
unfoldable pub fullmatch : List Piece → Text → Bool
fullmatch [] [] = true
fullmatch [] (c ∷ cs) = false
fullmatch (directories ∷ ps) t = fullmatch ps t || plus_slash (fullmatch ps) t
fullmatch (anything ∷ ps) t = star (λ c. not (c == 10)) (fullmatch ps) t
fullmatch (segment ∷ ps) t = star (λ c. not (c == b'/')) (fullmatch ps) t
fullmatch (literal a ∷ ps) t = one_of a (fullmatch ps) t

unfoldable pub glob_match : Text → Text → Bool
glob_match pattern t = fullmatch (glob_to_regex pattern) t
