-- ===== src/StateList/Walk.antt =====
-- The two loops of the list operations, and the chains that their writes leave.
use fp_sisop20_b.Prelude.{
  ℕ, zero, suc, ◌<◌, ◌≡◌, ◌≢◌, refl, inl, inr, true, false, List, [], ◌∷◌, ◌++◌, arith, ◌==◌,
  ==_refl, ==_ne, ==→eq, if◌then◌else◌, Bool-cases, update, length,
}
use mathlib.Core.Path.{subst₂}
use fp_sisop20_b.Run.{ok}
use fp_sisop20_b.StateList.{Ptr, Lists, success, failure, last_loop, remove_loop}
use fp_sisop20_b.StateList.Chain.{has, Distinct, Chain, Chain-frame, erase}

abbrev pub last : Ptr → List Ptr → Ptr
last x [] = x
last x (y ∷ ys) = last y ys

-- The node in front of `p`, where `prev` stands in front of the list.
abbrev pub before : (p prev : Ptr) → List Ptr → Ptr
before p prev [] = prev
before p prev (x ∷ xs) = if p == x then prev else before p x xs

pub has-last : (x : Ptr) (xs : List Ptr) → has (last x xs) (x ∷ xs) ≡ true
has-last x [] = ground arith
has-last x (y ∷ ys) = ground (arith, has-last y ys)

pub has-before : (p x : Ptr) (xs : List Ptr) → has (before p x xs) (x ∷ xs) ≡ true
has-before p x [] = ground arith
has-before p x (y ∷ ys) = ground (arith, has-before p y ys)

pub last_loop-last :
    (n x : Ptr) (xs : List Ptr) (l : Lists)
    → Chain l.next (l.next x) xs
    → length xs < n
    → last_loop n x l ≡ ok (last x xs) l
unfolding last_loop
last_loop-last zero x xs l c h = absurd (omega arith)
last_loop-last (suc n) x [] l c h = rw c
last_loop-last (suc n) x (y ∷ ys) l (e, ne, c) h =
    rw (e, ==_ne ne) (last_loop-last n y ys l c (omega arith))

module _ (p : ℕ) where
  pub remove_loop-miss :
      (n prev current : ℕ) (xs : List Ptr) (l : Lists)
      → Chain l.next current xs
      → length xs < n
      → has p xs ≡ false
      → remove_loop n p prev current l ≡ ok failure l
  unfolding remove_loop
  remove_loop-miss zero prev current xs l c h out = absurd (omega arith)
  remove_loop-miss (suc n) prev current [] l c h out = rw c
  remove_loop-miss (suc n) prev current (x ∷ xs) l (e, ne, c) h out =
      let ne' : x ≢ p = ground arith in
      let out' : has p xs ≡ false = ground arith in
      rw (e, ==_ne ne, ==_ne ne') (remove_loop-miss n x (l.next x) xs l c (omega arith) out')

  pub remove_loop-hit :
      (n prev current : ℕ) (xs : List Ptr) (l : Lists)
      → Chain l.next current xs
      → length xs < n
      → has p xs ≡ true
      → remove_loop n p prev current l
        ≡ ok success (record l { next = update (update l.next (before p prev xs) (l.next p)) p 0 })
  unfolding remove_loop
  remove_loop-hit zero prev current xs l c h hit = absurd (omega arith)
  remove_loop-hit (suc n) prev current [] l c h hit = cc
  remove_loop-hit (suc n) prev current (x ∷ xs) l (e, ne, c) h hit = elim (Bool-cases (p == x)) [
    | inl is ↦ let e' : p ≡ x = ==→eq p x is in rw (e, ==_ne ne, e', ==_refl x) refl
    | inr is ↦
        let ne' : x ≢ p = ground arith in
        let hit' : has p xs ≡ true = ground arith in
        rw (e, ==_ne ne, ==_ne ne', is) (remove_loop-hit n x (l.next x) xs l c (omega arith) hit')
  ]

-- What the writes at the end of a list make of its chain.
pub Chain-snoc :
    (next : Ptr → Ptr) (p h x : Ptr) (xs : List Ptr)
    → p ≢ 0
    → Chain next h (x ∷ xs)
    → Distinct (x ∷ xs)
    → has p (x ∷ xs) ≡ false
    → Chain (update (update next (last x xs) p) p 0) h ((x ∷ xs) ++ p ∷ [])
Chain-snoc next p h x [] np (e, ne, c) d out = (e, ne, (ground arith, np, ground arith))
Chain-snoc next p h x (y ∷ ys) np (e, ne, c) d out = (
  e,
  ne,
  let same : update (update next (last y ys) p) p 0 x ≡ next x = ground (arith, has-last y ys) in
      rw same (Chain-snoc next p (next x) y ys np c d.1 (ground arith)),
)

-- What the writes of a removal behind the first node make of its chain.
pub Chain-unlink :
    (next : Ptr → Ptr) (p h x : Ptr) (xs : List Ptr)
    → p ≢ x
    → Chain next h (x ∷ xs)
    → Distinct (x ∷ xs)
    → has p xs ≡ true
    → Chain (update (update next (before p x xs) (next p)) p 0) h (x ∷ erase p xs)
Chain-unlink next p h x [] np c d hit = cc
Chain-unlink next p h x (y ∷ ys) np (e, ne, c) d hit = elim (Bool-cases (p == y)) [
  | inl is ↦
      let front : x ≡ before p x (y ∷ ys) = rw is in
      let rest : ys ≡ erase p (y ∷ ys) = rw is in
      let at_x : update (update next x (next p)) p 0 x ≡ next y = ground arith in
      let kept =
        Chain-frame next (update (update next x (next p)) p 0) (next y) ys
          (λ q i. ground (arith, d)) c.2 in
      subst₂ (λ b zs. Chain (update (update next b (next p)) p 0) h (x ∷ zs)) front rest
        (e, ne, rw at_x kept)
  | inr is ↦
      let front : before p y ys ≡ before p x (y ∷ ys) = rw is in
      let rest : y ∷ erase p ys ≡ erase p (y ∷ ys) = rw is in
      let at_x : update (update next (before p y ys) (next p)) p 0 x ≡ next x =
        ground (arith, has-before p y ys) in
      let miss : p ≢ y = ground arith in
      let kept = Chain-unlink next p (next x) y ys miss c d.1 (ground arith) in
      subst₂ (λ b zs. Chain (update (update next b (next p)) p 0) h (x ∷ zs)) front rest
        (e, ne, rw at_x kept)
]
