-- ===== src/Grep/Equivalence.antt =====
-- The matcher of grep.c accepts exactly what the pattern means.
use fp_sisop20_b.Prelude.{
  or_true, ℕ, ◌≡◌, refl, sym, ap, subst, ◌∙◌, ◌↔◌, inl, inr, Bool, Bool-cases, true, false, ◌&&◌,
  ◌||◌, List, [], ◌∷◌, ◌++◌, ◌==◌, if◌then◌else◌, arith,
}
use fp_sisop20_b.Grep.{caret, star, dollar, dot, matchhere, matchstar, match_loop, match_text}
use fp_sisop20_b.Grep.Language.{
  one, many, Pattern, prefix_item, parse, admits, all_admit, Spells, Begins, Begins-nil, Begins-end,
  anchored-nil, Begins-one, Begins-many, Begins-none,
}

-- Sound and complete on every text.
record Decides (here : List ℕ → Bool) (p : Pattern) : Type 0 where
  sound : (text : List ℕ) → here text ≡ true → Begins p text
  complete : (text : List ℕ) → Begins p text → here text ≡ true

admits_comm : (c x : ℕ) → (x == c || c == dot) ≡ admits c x
admits_comm c x = ground arith

star_sound :
    (c : ℕ) (here : List ℕ → Bool) (p : Pattern)
    → Decides here p
    → (text : List ℕ) → matchstar c here text ≡ true
    → Begins (prefix_item (many c) p) text
unfolding matchstar
star_sound c here p d [] h = Begins-none c p [] (d.sound [] h)
star_sound c here p d (x ∷ text) h = elim (Bool-cases (here (x ∷ text))) [
  | inl now ↦ Begins-none c p (x ∷ text) (d.sound (x ∷ text) now)
  | inr later ↦
      Begins-many c x p text (ground (arith, h, later))
        (star_sound c here p d text (ground (arith, h, later)))
]

star_complete :
    (c : ℕ) (here : List ℕ → Bool) (p : Pattern)
    → Decides here p
    → (u v rest text : List ℕ) → text ≡ u ++ v ++ rest
    → all_admit c u ≡ true
    → Spells p.items v
    → (p.anchored ≡ true → rest ≡ [])
    → matchstar c here text ≡ true
unfolding matchstar
star_complete c here p d [] v rest [] e all s a =
    d.complete [] (record { word = v; rest = rest; split = e; spelled = s; ended = a })
star_complete c here p d [] v rest (x ∷ text) e all s a =
    rw (d.complete (x ∷ text) (record { word = v; rest = rest; split = e; spelled = s; ended = a }))
      refl
star_complete c here p d (y ∷ u) v rest [] e all s a = cc
star_complete c here p d (y ∷ u) v rest (x ∷ text) e all s a =
    let head : x ≡ y = cc in
    let tail : text ≡ u ++ v ++ rest = cc in
    let fits : admits c y ≡ true = ground (arith, all) in
    let more : all_admit c u ≡ true = ground (arith, all) in
    let rec = star_complete c here p d u v rest text tail more s a in
    let fits' : (x == c || c == dot) ≡ true = ground (arith, fits, head) in
    rw (fits', rec) (or_true (here (x ∷ text)))

star-Decides :
    (c : ℕ) (here : List ℕ → Bool) (p : Pattern)
    → Decides here p
    → Decides (matchstar c here) (prefix_item (many c) p)
star-Decides c here p d = record {
  sound = star_sound c here p d;
  complete = λ text b.
      let (u, v, e, all, s) = b.spelled in
      star_complete c here p d u v b.rest text (b.split ∙ ap (λ w. w ++ b.rest) e) all s b.ended;
}

-- What matchhere does with a single item before the rest of the pattern.
abbrev step : ℕ → (List ℕ → Bool) → List ℕ → Bool
step c here [] = false
step c here (x ∷ text) = (c == dot || c == x) && here text

step-Decides :
    (c : ℕ) (here : List ℕ → Bool) (p : Pattern)
    → Decides here p
    → Decides (step c here) (prefix_item (one c) p)
step-Decides c here p d = record { sound = sound; complete = complete }
  where
    sound : (text : List ℕ) → step c here text ≡ true → Begins (prefix_item (one c) p) text
    sound [] h = cc
    sound (x ∷ text) h =
        Begins-one c x p text (ground (arith, h)) (d.sound text (ground (arith, h)))

    complete : (text : List ℕ) → Begins (prefix_item (one c) p) text → step c here text ≡ true
    complete [] b =
        let (x, v, e, a, s) = b.spelled in let z = b.split ∙ ap (λ w. w ++ b.rest) e in cc
    complete (y ∷ text) b =
        let (x, v, e, a, s) = b.spelled in
        let z = b.split ∙ ap (λ w. w ++ b.rest) e in
        let head : y ≡ x = cc in
        let tail : text ≡ v ++ b.rest = cc in
        let rest =
          d.complete text
            (record { word = v; rest = b.rest; split = tail; spelled = s; ended = b.ended }) in
        rw (head, a, rest) refl

Decides-ext :
    (f g : List ℕ → Bool) (p q : Pattern)
    → ((text : List ℕ) → f text ≡ g text)
    → p ≡ q
    → Decides g q
    → Decides f p
Decides-ext f g p q e h d = record {
  sound = λ text r. subst (λ z. Begins z text) (sym h) (d.sound text (sym (e text) ∙ r));
  complete = λ text b. e text ∙ d.complete text (subst (λ z. Begins z text) h b);
}

-- What matchhere does with an anchor at the end.
abbrev at_end : List ℕ → Bool
at_end [] = true
at_end (x ∷ text) = false

end-Decides : Decides at_end (record { items = []; anchored = true })
end-Decides = record { sound = sound; complete = complete }
  where
    sound :
        (text : List ℕ) → at_end text ≡ true → Begins (record { items = []; anchored = true }) text
    sound [] h = Begins-end
    sound (x ∷ text) h = cc

    complete :
        (text : List ℕ) → Begins (record { items = []; anchored = true }) text → at_end text ≡ true
    complete [] b = refl
    complete (x ∷ text) b = let e = anchored-nil (x ∷ text) b in cc

nil-Decides : Decides (matchhere []) (parse [])
unfolding matchhere
nil-Decides = record { sound = λ text h. Begins-nil text; complete = λ text b. refl }

last_end : (c : ℕ) → (c == dollar) ≡ true → (text : List ℕ) → matchhere (c ∷ []) text ≡ at_end text
unfolding matchhere
last_end c e [] = e
last_end c e (x ∷ text) = rw e refl

last_step :
    (c : ℕ)
    → (c == dollar) ≡ false
    → (text : List ℕ) → matchhere (c ∷ []) text ≡ step c (matchhere []) text
unfolding matchhere
last_step c e [] = e
last_step c e (x ∷ text) = rw e refl

next_star :
    (c d : ℕ) (re : List ℕ)
    → (d == star) ≡ true
    → (text : List ℕ) → matchhere (c ∷ d ∷ re) text ≡ matchstar c (matchhere re) text
unfolding matchhere
next_star c d re e [] = rw e refl
next_star c d re e (x ∷ text) = rw e refl

next_step :
    (c d : ℕ) (re : List ℕ)
    → (d == star) ≡ false
    → (text : List ℕ) → matchhere (c ∷ d ∷ re) text ≡ step c (matchhere (d ∷ re)) text
unfolding matchhere
next_step c d re e [] = rw e refl
next_step c d re e (x ∷ text) = rw e refl

matchhere-Decides : (re : List ℕ) → Decides (matchhere re) (parse re)
matchhere-Decides [] = nil-Decides
matchhere-Decides (c ∷ []) = elim (Bool-cases (c == dollar)) [
  | inl end_ ↦
      Decides-ext (matchhere (c ∷ [])) at_end (parse (c ∷ []))
        (record { items = []; anchored = true }) (last_end c end_) (rw end_ refl) end-Decides
  | inr other ↦
      Decides-ext (matchhere (c ∷ [])) (step c (matchhere [])) (parse (c ∷ []))
        (prefix_item (one c) (parse [])) (last_step c other) (rw other refl)
        (step-Decides c (matchhere []) (parse []) nil-Decides)
]
matchhere-Decides (c ∷ d ∷ re) =
    let rest = matchhere-Decides re in
    let next = matchhere-Decides (d ∷ re) in
    elim (Bool-cases (d == star)) [
      | inl starred ↦
          Decides-ext (matchhere (c ∷ d ∷ re)) (matchstar c (matchhere re)) (parse (c ∷ d ∷ re))
            (prefix_item (many c) (parse re)) (next_star c d re starred) (rw starred refl)
            (star-Decides c (matchhere re) (parse re) rest)
      | inr other ↦
          Decides-ext (matchhere (c ∷ d ∷ re)) (step c (matchhere (d ∷ re))) (parse (c ∷ d ∷ re))
            (prefix_item (one c) (parse (d ∷ re))) (next_step c d re other) (rw other refl)
            (step-Decides c (matchhere (d ∷ re)) (parse (d ∷ re)) next)
    ]

-- The text holds the pattern: at its start after `^`, and otherwise anywhere.
abbrev pub Contains : Pattern → List ℕ → Type 0
Contains p text = (before : List ℕ) × (after : List ℕ) × (text ≡ before ++ after) × Begins p after

abbrev pub Meant : List ℕ → List ℕ → Type 0
Meant [] text = Contains (parse []) text
Meant (c ∷ re) text = if c == caret then Begins (parse re) text else Contains (parse (c ∷ re)) text

loop_sound : (re text : List ℕ) → match_loop re text ≡ true → Contains (parse re) text
unfolding match_loop
loop_sound re [] h = ([], [], refl, (matchhere-Decides re).sound [] h)
loop_sound re (x ∷ text) h = elim (Bool-cases (matchhere re (x ∷ text))) [
  | inl now ↦ ([], x ∷ text, refl, (matchhere-Decides re).sound (x ∷ text) now)
  | inr later ↦
      let (before, after, e, b) = loop_sound re text (ground (arith, h, later)) in
      (x ∷ before, after, ap (λ t. x ∷ t) e, b)
]

loop_complete :
    (re before after text : List ℕ)
    → text ≡ before ++ after
    → Begins (parse re) after
    → match_loop re text ≡ true
unfolding match_loop
loop_complete re [] after [] e b =
    (matchhere-Decides re).complete [] (subst (Begins (parse re)) (sym e) b)
loop_complete re [] after (x ∷ text) e b =
    rw ((matchhere-Decides re).complete (x ∷ text) (subst (Begins (parse re)) (sym e) b)) refl
loop_complete re (y ∷ before) after [] e b = cc
loop_complete re (y ∷ before) after (x ∷ text) e b =
    let tail : text ≡ before ++ after = cc in
    rw (loop_complete re before after text tail b) (or_true (matchhere re (x ∷ text)))

loop_Contains : (re text : List ℕ) → (match_loop re text ≡ true) ↔ Contains (parse re) text
loop_Contains re text =
    (loop_sound re text, λ (before, after, e, b). loop_complete re before after text e b)

here_Begins : (re text : List ℕ) → (matchhere re text ≡ true) ↔ Begins (parse re) text
here_Begins re text = ((matchhere-Decides re).sound text, (matchhere-Decides re).complete text)

-- match accepts exactly the texts that the pattern stands for: those that begin as the rest of the pattern
-- says after `^`, and otherwise those of which some suffix begins as the pattern says.
pub match_text_lem : (re text : List ℕ) → (match_text re text ≡ true) ↔ Meant re text
unfolding match_text
match_text_lem [] text = loop_Contains [] text
match_text_lem (c ∷ re) text = elim (Bool-cases (c == caret)) [
  | inl anchored ↦ rw anchored (here_Begins re text)
  | inr free ↦ rw free (loop_Contains (c ∷ re) text)
]
