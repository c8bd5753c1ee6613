-- ===== src/Tests/Grep.antt =====
-- The matcher on patterns with each of the special characters.
use fp_sisop20_b.Prelude.{ℕ, ◌≡◌, ◌↔◌, refl, true, false, List, [], ◌∷◌}
use fp_sisop20_b.Grep.{matchhere, matchstar, match_loop, match_text}
use fp_sisop20_b.Grep.Equivalence.{Meant, match_text_lem}

-- `^a.*b$`
abbrev anchored : List ℕ
anchored = 94 ∷ 97 ∷ 46 ∷ 42 ∷ 98 ∷ 36 ∷ []

-- `abab`
abbrev text : List ℕ
text = 97 ∷ 98 ∷ 97 ∷ 98 ∷ []

anchored_text : match_text anchored text ≡ true
unfolding match_text match_loop matchhere matchstar
anchored_text = refl

anchored_longer : match_text anchored (97 ∷ 98 ∷ 99 ∷ []) ≡ false
unfolding match_text match_loop matchhere matchstar
anchored_longer = refl

match_text_example : (match_text anchored text ≡ true) ↔ Meant anchored text
match_text_example = match_text_lem anchored text
