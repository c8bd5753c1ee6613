-- ===== src/StateList/Range.antt =====
-- Consecutive processes as a list.
use fp_sisop20_b.Prelude.{
  ℕ, zero, suc, ◌+◌, ◌≡◌, refl, ap, ◌∙◌, ◌&&◌, List, [], ◌∷◌, ◌++◌, leb, ltb, arith, length,
}
use fp_sisop20_b.StateList.{Ptr}
use fp_sisop20_b.StateList.Chain.{has, Distinct}

unfoldable pub range : ℕ → ℕ → List Ptr
range a zero = []
range a (suc n) = a ∷ range (suc a) n

pub range-snoc : (a n : ℕ) → range a n ++ (a + n) ∷ [] ≡ range a (suc n)
unfolding range
range-snoc a zero = ap (λ b. b ∷ []) (omega arith)
range-snoc a (suc n) =
    ap (λ xs. a ∷ xs) (let e : a + suc n ≡ suc a + n = omega arith in rw e (range-snoc (suc a) n))

pub length-range : (a n : ℕ) → length (range a n) ≡ n
unfolding range
length-range a zero = refl
length-range a (suc n) = ap suc (length-range (suc a) n)

pub has-range : (p a n : ℕ) → has p (range a n) ≡ (leb a p && ltb p (a + n))
unfolding range
has-range p a zero = ground arith
has-range p a (suc n) = ground (arith, has-range p (suc a) n)

pub Distinct-range : (a n : ℕ) → Distinct (range a n)
unfolding range
Distinct-range a zero = tt
Distinct-range a (suc n) = (ground (arith, has-range a (suc a) n), Distinct-range (suc a) n)

pub range_one-snoc : (n : ℕ) → range 1 n ++ suc n ∷ [] ≡ range 1 (suc n)
range_one-snoc n = ap (λ k. range 1 n ++ k ∷ []) (omega arith) ∙ range-snoc 1 n

pub range-first : (a n : ℕ) → range a (suc n) ≡ a ∷ range (suc a) n
unfolding range
range-first a n = refl

pub range-end : (a : ℕ) → range a 0 ≡ []
unfolding range
range-end a = refl
