-- ===== src/Proc/Find.antt =====
-- The searches of proc.c through its lists, as searches through what the lists hold.
use fp_sisop20_b.Prelude.{
  ℕ, zero, suc, ◌+◌, ◌<◌, ◌≡◌, ◌≢◌, refl, subst, ◌⊎◌, inl, inr, Bool, true, false, List, [], ◌∷◌,
  arith, ◌==◌, ==→eq, ==→ne, ==_ne, if◌then◌else◌, Bool-cases, length,
}
use fp_sisop20_b.Run.{ok}
use fp_sisop20_b.StateList.{Ptr, Slot, nproc, in_range, load_head}
use fp_sisop20_b.StateList.Chain.{has, Chain}
use fp_sisop20_b.Proc.{Proc, Table, find_loop, find_in}
use fp_sisop20_b.Proc.Invariant.{IsOrdered}
use fp_sisop20_b.Proc.Moves.{length-queue-le}

-- The first entry that passes a test, or null.
abbrev pub first : (Ptr → Bool) → List Ptr → Ptr
first f [] = 0
first f (x ∷ xs) = if f x then x else first f xs

abbrev pub OneOf : Slot → List Slot → Type 0
OneOf k [] = ⊥
OneOf k (j ∷ js) = (k ≡ j) ⊎ OneOf k js

abbrev pub AllInRange : List Slot → Type 0
AllInRange [] = Unit {0}
AllInRange (k ∷ ks) = (in_range k ≡ true) × AllInRange ks

find_loop-first :
    (n : ℕ) (test : Proc → Bool) (p : Ptr) (xs : List Ptr) (t : Table)
    → Chain t.lists.next p xs
    → length xs < n
    → find_loop n test p t ≡ ok (first (λ q. test (t.procs q)) xs) t
unfolding find_loop
find_loop-first zero test p xs t c h = absurd (omega arith)
find_loop-first (suc n) test p [] t c h = rw c
find_loop-first (suc n) test p (x ∷ xs) t (e, ne, c) h = elim (Bool-cases (test (t.procs x))) [
  | inl hit ↦ rw (e, ==_ne ne, hit)
  | inr miss ↦ rw (e, ==_ne ne, miss) (find_loop-first n test (t.lists.next x) xs t c (omega arith))
]

-- What a search can come back with: a process on one of the lists that passes the test, or null
-- where no process on the lists passes it.
pub data Found (queue : Slot → List Ptr) (f : Ptr → Bool) (ks : List Slot) (p : Ptr) : Type 0 where
  hit : (k : Slot) → OneOf k ks → has p (queue k) ≡ true → f p ≡ true → p ≢ 0 → Found queue f ks p
  miss :
      p ≡ 0
      → ((k : Slot) (q : Ptr) → OneOf k ks → has q (queue k) ≡ true → f q ≡ false)
      → Found queue f ks p

first-hit :
    (f : Ptr → Bool) (xs : List Ptr)
    → first f xs ≢ 0
    → (has (first f xs) xs ≡ true) × (f (first f xs) ≡ true)
first-hit f [] ne = absurd (ne refl)
first-hit f (x ∷ xs) ne = elim (Bool-cases (f x)) [
  | inl is ↦ rw is (ground arith, is)
  | inr is ↦
      let ne' : first f xs ≢ 0 = rw is at ne in
      let (on, passes) = first-hit f xs ne' in
      let e : first f xs ≡ first f (x ∷ xs) = rw is in
      subst (λ p. (has p (x ∷ xs) ≡ true) × (f p ≡ true)) e (ground arith, passes)
]

first-miss :
    (f : Ptr → Bool) (xs : List Ptr) (q : Ptr)
    → ((r : Ptr) → has r xs ≡ true → r ≢ 0)
    → first f xs ≡ 0
    → has q xs ≡ true
    → f q ≡ false
first-miss f [] q nz e on = cc
first-miss f (x ∷ xs) q nz e on = elim (Bool-cases (f x)) [
  | inl is ↦ absurd (nz x (ground arith) (rw is at e))
  | inr is ↦ elim (Bool-cases (q == x)) [
    | inl at ↦ rw (==→eq q x at) is
    | inr off ↦ first-miss f xs q (λ r i. nz r (ground arith)) (rw is at e) (ground arith)
  ]
]

module _ (queue : Slot → List Ptr) (t : Table) (inv : IsOrdered queue t) (test : Proc → Bool) where
  abbrev passes : Ptr → Bool
  passes q = test (t.procs q)

  pub find_in-Found :
      (ks : List Slot)
      → AllInRange ks
      → (p : Ptr) × (find_in ks test t ≡ ok p t) × Found queue (λ q. test (t.procs q)) ks p
  unfolding find_in load_head
  find_in-Found [] h = (0, refl, miss refl (λ k q o on. elim o [ ]))
  find_in-Found (k ∷ ks) h =
      let p = first passes (queue k) in
      let short = length-queue-le queue 0 t.procs t.lists k inv in
      let run =
        find_loop-first (nproc + 1) test (t.lists.head k) (queue k) t (inv.chain k) (omega arith) in
      elim (Bool-cases (p == 0)) [
        | inl nothing ↦
            let (p', run', found) = find_in-Found ks h.1 in
            (p', rw (h.0, run, nothing) run', widen p' found (==→eq p 0 nothing))
        | inr something ↦
            let (on, is) = first-hit passes (queue k) (==→ne p 0 something) in
            (p, rw (h.0, run, something) refl, hit k (inl refl) on is (==→ne p 0 something))
      ]
    where
      widen :
          (p' : Ptr)
          → Found queue passes ks p'
          → first passes (queue k) ≡ 0
          → Found queue passes (k ∷ ks) p'
      widen p' (hit j o on is ne) e = hit j (inr o) on is ne
      widen p' (miss null none_passes) e = miss null (λ j q o on. elim o [
        | inl at ↦
            first-miss passes (queue k) q (λ r i. inv.absent k r i) e
              (subst (λ i. has q (queue i) ≡ true) at on)
        | inr later ↦ none_passes j q later on
      ])
