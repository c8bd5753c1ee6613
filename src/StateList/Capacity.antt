-- ===== src/StateList/Capacity.antt =====
-- Removal from a list, and how long a list of distinct table entries can be.
use fp_sisop20_b.Prelude.{
  ℕ, zero, suc, ◌≤◌, ◌<◌, ◌≡◌, refl, inl, inr, true, false, not, ◌&&◌, List, [], ◌∷◌, ◌++◌, arith,
  ◌==◌, Bool-cases, length,
}
use fp_sisop20_b.StateList.{Ptr}
use fp_sisop20_b.StateList.Chain.{has, has-append, Distinct, erase}

pub has-erase :
    (q p : Ptr) (xs : List Ptr) → Distinct xs → has q (erase p xs) ≡ (has q xs && not (q == p))
has-erase q p [] d = refl
has-erase q p (x ∷ xs) d = ground (arith, has-erase q p xs d.1)

pub Distinct-erase : (p : Ptr) (xs : List Ptr) → Distinct xs → Distinct (erase p xs)
Distinct-erase p [] d = tt
Distinct-erase p (x ∷ xs) d = elim (Bool-cases (p == x)) [
  | inl is ↦ rw is d.1
  | inr is ↦ rw is (ground (arith, has-erase x p xs d.1), Distinct-erase p xs d.1)
]

pub Distinct-snoc :
    (p : Ptr) (xs : List Ptr) → Distinct xs → has p xs ≡ false → Distinct (xs ++ p ∷ [])
Distinct-snoc p [] d out = (refl, tt)
Distinct-snoc p (x ∷ xs) d out =
    (ground (arith, has-append x xs (p ∷ [])), Distinct-snoc p xs d.1 (ground arith))

length-erase : (p : Ptr) (xs : List Ptr) → has p xs ≡ true → length xs ≡ suc (length (erase p xs))
length-erase p [] h = cc
length-erase p (x ∷ xs) h = elim (Bool-cases (p == x)) [
  | inl is ↦ rw is
  | inr is ↦ rw is (omega (arith, length-erase p xs (ground arith)))
]

-- Distinct numbers from 1 to n are at most n.
pub length-le :
    (n : ℕ) (xs : List Ptr)
    → Distinct xs
    → ((q : Ptr) → has q xs ≡ true → (0 < q) × (q ≤ n))
    → length xs ≤ n
length-le zero [] d h = omega arith
length-le zero (x ∷ xs) d h = absurd (let b = h x (ground arith) in omega arith)
length-le (suc n) xs d h = elim (Bool-cases (has (suc n) xs)) [
  | inl top ↦ omega (
    arith,
    length-erase (suc n) xs top,
    length-le n (erase (suc n) xs) (Distinct-erase (suc n) xs d)
        (λ q i. ground (arith, has-erase q (suc n) xs d, h q)),
  )
  | inr none_top ↦ omega (arith, length-le n xs d (λ q i. ground (arith, h q)))
]
