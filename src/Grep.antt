-- ===== src/Grep.antt =====
-- grep.c: the matcher for patterns of letters, `.`, `*`, `^` and `$`. A string is the list of its
-- characters, without the terminator: `re[0]` of an empty one is 0.
pub mod Language
pub mod Equivalence
use fp_sisop20_b.Prelude.{ℕ, Bool, true, false, not, ◌&&◌, ◌||◌, List, [], ◌∷◌, ◌==◌, if◌then◌else◌}

-- The characters of a pattern that mean more than themselves.
abbrev pub caret : ℕ
caret = 94

abbrev pub star : ℕ
star = 42

abbrev pub dollar : ℕ
dollar = 36

abbrev pub dot : ℕ
dot = 46

-- matchstar(c, re, text), where `here` is matchhere(re, ...).
unfoldable pub matchstar : (c : ℕ) (here : List ℕ → Bool) (text : List ℕ) → Bool
matchstar c here [] = here []
matchstar c here (x ∷ text) = here (x ∷ text) || ((x == c || c == dot) && matchstar c here text)

unfoldable pub matchhere : (re text : List ℕ) → Bool
matchhere [] text = true
matchhere (c ∷ []) [] = c == dollar
matchhere (c ∷ []) (x ∷ text) =
    if c == dollar then false else (c == dot || c == x) && matchhere [] text
matchhere (c ∷ d ∷ re) [] = if d == star then matchstar c (matchhere re) [] else false
matchhere (c ∷ d ∷ re) (x ∷ text) =
    if d == star
    then matchstar c (matchhere re) (x ∷ text)
    else (c == dot || c == x) && matchhere (d ∷ re) text

-- The loop of match, on every suffix of the text.
unfoldable pub match_loop : (re text : List ℕ) → Bool
match_loop re [] = matchhere re []
match_loop re (x ∷ text) = matchhere re (x ∷ text) || match_loop re text

unfoldable pub match_text : (re text : List ℕ) → Bool
match_text [] text = match_loop [] text
match_text (c ∷ re) text = if c == caret then matchhere re text else match_loop (c ∷ re) text
