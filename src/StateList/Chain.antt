-- ===== src/StateList/Chain.antt =====
-- Lists of pointers as the lists that they stand for.
use fp_sisop20_b.Prelude.{
  ◌≡◌, ◌≢◌, refl, Bool, true, false, ◌||◌, List, [], ◌∷◌, ◌++◌, arith, ◌==◌, if◌then◌else◌,
}
use fp_sisop20_b.StateList.{Ptr}

abbrev pub has : Ptr → List Ptr → Bool
has p [] = false
has p (x ∷ xs) = (p == x) || has p xs

abbrev pub Distinct : List Ptr → Type 0
Distinct [] = Unit {0}
Distinct (x ∷ xs) = (has x xs ≡ false) × Distinct xs

-- From `p` the `next` pointers lead through `xs` to null.
abbrev pub Chain : (Ptr → Ptr) → Ptr → List Ptr → Type 0
Chain next p [] = p ≡ 0
Chain next p (x ∷ xs) = (p ≡ x) × (x ≢ 0) × Chain next (next x) xs

-- The list without the first `p`.
abbrev pub erase : Ptr → List Ptr → List Ptr
erase p [] = []
erase p (x ∷ xs) = if p == x then xs else x ∷ erase p xs

pub has-append : (p : Ptr) (xs ys : List Ptr) → has p (xs ++ ys) ≡ (has p xs || has p ys)
has-append p [] ys = refl
has-append p (x ∷ xs) ys = ground (arith, has-append p xs ys)

pub Chain-frame :
    (f g : Ptr → Ptr) (p : Ptr) (xs : List Ptr)
    → ((q : Ptr) → has q xs ≡ true → g q ≡ f q)
    → Chain f p xs
    → Chain g p xs
Chain-frame f g p [] same c = c
Chain-frame f g p (x ∷ xs) same (e, ne, c) =
    (e, ne, subst_head (Chain-frame f g (f x) xs (λ q h. same q (ground arith)) c))
  where
    subst_head : Chain g (f x) xs → Chain g (g x) xs
    subst_head d = let e' : g x ≡ f x = same x (ground arith) in rw e' d

-- The head of a list, or null.
abbrev pub head : List Ptr → Ptr
head [] = 0
head (x ∷ xs) = x

-- In a chain each node leads to the next.
pub Chain-next :
    (next : Ptr → Ptr) (h : Ptr) (xs : List Ptr) (y : Ptr) (ys : List Ptr)
    → Chain next h (xs ++ y ∷ ys)
    → (next y ≡ head ys) × (y ≢ 0)
Chain-next next h [] y [] (e, ne, c) = (c, ne)
Chain-next next h [] y (z ∷ zs) (e, ne, c) = (c.0, ne)
Chain-next next h (x ∷ xs) y ys (e, ne, c) = Chain-next next (next x) xs y ys c

pub Chain-head : (next : Ptr → Ptr) (h : Ptr) (xs : List Ptr) → Chain next h xs → h ≡ head xs
Chain-head next h [] c = c
Chain-head next h (x ∷ xs) c = c.0
