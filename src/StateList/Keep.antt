-- ===== src/StateList/Keep.antt =====
-- The entries of a list that pass a test.
use fp_sisop20_b.Prelude.{
  ◌≡◌, refl, Bool, true, false, List, [], ◌∷◌, ◌++◌, arith, if◌then◌else◌, ==_refl, append_assoc,
}
use fp_sisop20_b.StateList.{Ptr}
use fp_sisop20_b.StateList.Chain.{has, has-append, Distinct, erase}

abbrev pub keep : (Ptr → Bool) → List Ptr → List Ptr
keep f [] = []
keep f (x ∷ xs) = if f x then x ∷ keep f xs else keep f xs

pub keep_ext :
    (f g : Ptr → Bool) (xs : List Ptr)
    → ((q : Ptr) → has q xs ≡ true → f q ≡ g q)
    → keep f xs ≡ keep g xs
keep_ext f g [] h = refl
keep_ext f g (x ∷ xs) h = ground (arith, h x, keep_ext f g xs (λ q i. h q (ground arith)))

-- Taking out an entry that stands behind others.
pub erase-append :
    (y : Ptr) (xs ys : List Ptr) → has y xs ≡ false → erase y (xs ++ y ∷ ys) ≡ xs ++ ys
erase-append y [] ys out = rw (==_refl y)
erase-append y (x ∷ xs) ys out = ground (arith, erase-append y xs ys)

-- The entries of a list without repetition: what stands behind `y` is not in front of it.
pub Distinct-middle :
    (xs : List Ptr) (y : Ptr) (ys : List Ptr)
    → Distinct (xs ++ y ∷ ys)
    → (has y xs ≡ false) × (has y ys ≡ false)
Distinct-middle [] y ys d = (refl, d.0)
Distinct-middle (x ∷ xs) y ys d =
    let (front, back) = Distinct-middle xs y ys d.1 in
    (ground (arith, d, has-append x xs (y ∷ ys)), back)

pub snoc-append : (xs : List Ptr) (y : Ptr) (ys : List Ptr) → (xs ++ y ∷ []) ++ ys ≡ xs ++ y ∷ ys
snoc-append xs y ys = append_assoc xs (y ∷ []) ys
