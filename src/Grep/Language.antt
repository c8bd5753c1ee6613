-- ===== src/Grep/Language.antt =====
-- What a pattern of grep.c means, independently of the matcher: the pattern is a list of items, and each
-- item stands for a set of texts.
use fp_sisop20_b.Prelude.{
  ℕ, ◌≡◌, refl, ap, ◌∙◌, Bool, true, false, ◌&&◌, ◌||◌, List, [], ◌∷◌, ◌++◌, ◌==◌, if◌then◌else◌,
}
use fp_sisop20_b.Grep.{star, dollar, dot}

pub data Item : Type 0 where
  one : ℕ → Item
  many : ℕ → Item

-- The items of a pattern, and whether it ends in the anchor `$`.
pub record Pattern : Type 0 where
  pub items : List Item
  pub anchored : Bool

abbrev pub prefix_item : Item → Pattern → Pattern
prefix_item i p = record p { items = i ∷ p.items }

abbrev pub parse : List ℕ → Pattern
parse [] = record { items = []; anchored = false }
parse (c ∷ []) =
    if c == dollar
    then record { items = []; anchored = true }
    else record { items = one c ∷ []; anchored = false }
parse (c ∷ d ∷ re) =
    if d == star then prefix_item (many c) (parse re) else prefix_item (one c) (parse (d ∷ re))

-- The characters that `c` stands for.
abbrev pub admits : ℕ → ℕ → Bool
admits c x = c == dot || c == x

abbrev pub all_admit : ℕ → List ℕ → Bool
all_admit c [] = true
all_admit c (x ∷ xs) = admits c x && all_admit c xs

-- The texts that the items spell, one after another.
abbrev pub Spells : List Item → List ℕ → Type 0
Spells [] w = w ≡ []
Spells (one c ∷ is) w = (x : ℕ) × (v : List ℕ) × (w ≡ x ∷ v) × (admits c x ≡ true) × Spells is v
Spells (many c ∷ is) w =
    (u : List ℕ) × (v : List ℕ) × (w ≡ u ++ v) × (all_admit c u ≡ true) × Spells is v

-- The text starts with a text of the pattern, and ends there if the pattern is anchored.
pub record Begins (p : Pattern) (text : List ℕ) : Type 0 where
  pub word : List ℕ
  pub rest : List ℕ
  pub split : text ≡ word ++ rest
  pub spelled : Spells p.items word
  pub ended : p.anchored ≡ true → rest ≡ []

pub Begins-nil : (text : List ℕ) → Begins (record { items = []; anchored = false }) text
Begins-nil text = record { word = []; rest = text; split = refl; spelled = refl; ended = λ h. cc }

pub Begins-end : Begins (record { items = []; anchored = true }) []
Begins-end = record { word = []; rest = []; split = refl; spelled = refl; ended = λ h. refl }

pub anchored-nil :
    (text : List ℕ) → Begins (record { items = []; anchored = true }) text → text ≡ []
anchored-nil text b = b.split ∙ ap (λ w. w ++ b.rest) b.spelled ∙ b.ended refl

pub Begins-one :
    (c x : ℕ) (p : Pattern) (text : List ℕ)
    → admits c x ≡ true
    → Begins p text
    → Begins (prefix_item (one c) p) (x ∷ text)
Begins-one c x p text a b = record {
  word = x ∷ b.word;
  rest = b.rest;
  split = ap (λ t. x ∷ t) b.split;
  spelled = (x, b.word, refl, a, b.spelled);
  ended = b.ended;
}

pub Begins-many :
    (c x : ℕ) (p : Pattern) (text : List ℕ)
    → admits c x ≡ true
    → Begins (prefix_item (many c) p) text
    → Begins (prefix_item (many c) p) (x ∷ text)
Begins-many c x p text a b =
    let (u, v, e, all, s) = b.spelled in
    record {
      word = x ∷ b.word;
      rest = b.rest;
      split = ap (λ t. x ∷ t) b.split;
      spelled = (x ∷ u, v, ap (λ t. x ∷ t) e, rw (a, all) refl, s);
      ended = b.ended;
    }

pub Begins-none :
    (c : ℕ) (p : Pattern) (text : List ℕ) → Begins p text → Begins (prefix_item (many c) p) text
Begins-none c p text b = record {
  word = b.word;
  rest = b.rest;
  split = b.split;
  spelled = ([], b.word, refl, refl, b.spelled);
  ended = b.ended;
}
