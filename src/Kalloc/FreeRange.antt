-- ===== src/Kalloc/FreeRange.antt =====
-- freerange: the whole pages of a range go on the free list, in order.
use fp_sisop20_b.Prelude.{
  ℕ, zero, suc, ◌+◌, ◌-◌, ◌*◌, ◌/◌, ◌%◌, ◌^◌, ◌≤◌, ◌<◌, ◌≡◌, refl, ◌∙◌, inl, inr, true, false, List,
  ◌∷◌, arith, ◌==◌, leb, Bool-cases,
}
use fp_sisop20_b.Run.{ok}
use fp_sisop20_b.StateList.Chain.{has}
use fp_sisop20_b.Kalloc.{pgsize, kernbase, phystop, pgroundup, Kmem, kfree, free_loop, freerange}
use fp_sisop20_b.Kalloc.Pages.{IsPage, Pool, kfree_page}

-- The list after `k` pages from `p` on.
added : (k p : ℕ) → List ℕ → List ℕ
added zero p xs = xs
added (suc k) p xs = added k (p + pgsize) (p ∷ xs)

added-old : (k p x : ℕ) (xs : List ℕ) → has x xs ≡ true → has x (added k p xs) ≡ true
unfolding added
added-old zero p x xs h = h
added-old (suc k) p x xs h = added-old k (p + pgsize) x (p ∷ xs) (ground (arith, h))

added-new :
    (k p x : ℕ) (xs : List ℕ)
    → p % pgsize ≡ 0
    → x % pgsize ≡ 0
    → p ≤ x
    → x < p + k * pgsize
    → has x (added k p xs) ≡ true
unfolding added
added-new zero p x xs a b lo hi = absurd (omega (arith, lo, hi))
added-new (suc k) p x xs a b lo hi = elim (Bool-cases (x == p)) [
  | inl is ↦ added-old k (p + pgsize) x (p ∷ xs) (rw is refl)
  | inr ne ↦ added-new k (p + pgsize) x (p ∷ xs) (omega arith) b (ground arith) (omega arith)
]

-- All elements lie below `p`.
abbrev Below : ℕ → List ℕ → Type 0
Below p xs = (x : ℕ) → has x xs ≡ true → x < p

Below-out : (p : ℕ) (xs : List ℕ) → Below p xs → has p xs ≡ false
Below-out p xs below = elim (Bool-cases (has p xs)) [
  | inl on ↦ let lt = below p on in absurd (omega (arith, lt))
  | inr out ↦ out
]

Below-next : (p : ℕ) (xs : List ℕ) → Below p xs → Below (p + pgsize) (p ∷ xs)
Below-next p xs below x on = elim (Bool-cases (x == p)) [
  | inl is ↦ ground arith
  | inr ne ↦ let lt = below x (ground arith) in omega (arith, lt)
]

-- The range of addresses that freerange takes, with `k` pages in it.
record Fits (end_at p vend k : ℕ) : Type 0 where
  aligned : p % pgsize ≡ 0
  above : end_at ≤ p
  high : kernbase ≤ p
  low : vend ≤ kernbase + phystop
  full : p + k * pgsize ≤ vend
  last : vend < p + (k + 1) * pgsize

Fits-IsPage : (end_at p vend k : ℕ) → Fits end_at p vend (suc k) → IsPage end_at p
Fits-IsPage end_at p vend k f =
    let a = f.high in
    let b = f.low in
    let c = f.full in
    record { aligned = f.aligned; above = f.above; below = omega (arith, a, b, c) }

Fits-next : (end_at p vend k : ℕ) → Fits end_at p vend (suc k) → Fits end_at (p + pgsize) vend k
Fits-next end_at p vend k f =
    let a = f.aligned in
    let b = f.above in
    let c = f.high in
    let d = f.full in
    let e = f.last in
    record {
      aligned = omega (arith, a);
      above = omega (arith, b);
      high = omega (arith, c);
      low = f.low;
      full = omega (arith, d);
      last = omega (arith, e);
    }

loop_stop :
    (end_at fuel p vend : ℕ) (s : Kmem)
    → vend < p + pgsize
    → free_loop end_at (suc fuel) p vend s ≡ ok tt s
unfolding free_loop
loop_stop end_at fuel p vend s h = ground arith

loop_step :
    (end_at fuel p vend : ℕ) (s t : Kmem)
    → p + pgsize ≤ vend
    → kfree end_at p s ≡ ok tt t
    → free_loop end_at (suc fuel) p vend s ≡ free_loop end_at fuel (p + pgsize) vend t
unfolding free_loop
loop_step end_at fuel p vend s t h e =
    let b : leb (p + pgsize) vend ≡ true = ground arith in rw (b, e) refl

loop_lem :
    (end_at fuel p vend k : ℕ) (xs : List ℕ) (s : Kmem)
    → 0 < end_at
    → k < fuel
    → Fits end_at p vend k
    → Below p xs
    → Pool end_at xs s
    → (s' : Kmem) × (free_loop end_at fuel p vend s ≡ ok tt s')
      × Pool end_at (added k p xs) s'
      × Below vend (added k p xs)
      × (s'.use_lock ≡ s.use_lock)
unfolding added
loop_lem end_at zero p vend k xs s pos enough f below pool = absurd (omega (arith, enough))
loop_lem end_at (suc n) p vend zero xs s pos enough f below pool =
    let a = f.last in
    let b = f.full in
    (
      s,
      loop_stop end_at n p vend s (omega (arith, a)),
      pool,
      (λ x on. let lt = below x on in omega (arith, lt, b)),
      refl,
    )
loop_lem end_at (suc n) p vend (suc k) xs s pos enough f below pool =
    let (t, run, freed) =
      kfree_page end_at p xs s pos (Fits-IsPage end_at p vend k f) (Below-out p xs below) pool in
    let (u, runs, pool', below', lock) =
      loop_lem end_at n (p + pgsize) vend k (p ∷ xs) t pos (omega (arith, enough))
        (Fits-next end_at p vend k f) (Below-next p xs below) freed.pool in
    let a = f.full in
    (
      u,
      loop_step end_at n p vend s t (omega (arith, a)) run ∙ runs,
      pool',
      below',
      lock ∙ freed.use_lock,
    )

-- The pages that the addresses from `lo` up to `hi` hold whole are free.
abbrev pub Holds : (lo hi : ℕ) → List ℕ → Type 0
Holds lo hi xs = (x : ℕ) → x % pgsize ≡ 0 → lo ≤ x → x + pgsize ≤ hi → has x xs ≡ true

pub pgroundup_lem :
    (a : ℕ)
    → a + pgsize < 2 ^ 32
    → (pgroundup a % pgsize ≡ 0) × (a ≤ pgroundup a) × (pgroundup a < a + pgsize)
pgroundup_lem a h = (omega arith, omega (arith, h), omega (arith, h))

range-Fits :
    (end_at p vend : ℕ)
    → p % pgsize ≡ 0
    → end_at ≤ p
    → kernbase ≤ p
    → vend ≤ kernbase + phystop
    → p ≤ vend
    → Fits end_at p vend ((vend - p) / pgsize)
range-Fits end_at p vend a b c d e = record {
  aligned = a;
  above = b;
  high = c;
  low = d;
  full = omega (arith, e);
  last = omega (arith, e);
}

pub freerange_lem :
    (end_at a b : ℕ) (xs : List ℕ) (s : Kmem)
    → 0 < end_at
    → end_at ≤ a
    → kernbase ≤ a
    → b ≤ kernbase + phystop
    → a ≤ b
    → pgroundup a ≤ b
    → Below (pgroundup a) xs
    → Pool end_at xs s
    → (ys : List ℕ) × (s' : Kmem) × (freerange end_at a b s ≡ ok tt s')
      × Pool end_at ys s'
      × Below b ys
      × Holds a b ys
      × ((x : ℕ) → has x xs ≡ true → has x ys ≡ true)
      × (s'.use_lock ≡ s.use_lock)
unfolding freerange
freerange_lem end_at a b xs s pos above high low small order below pool =
    let p = pgroundup a in
    let (al, ge, lt) = pgroundup_lem a (omega (arith, small, low)) in
    let k = (b - p) / pgsize in
    let f =
      range-Fits end_at p b al (omega (arith, above, ge)) (omega (arith, high, ge)) low order in
    let (s', run, pool', below', lock) =
      loop_lem end_at (2 ^ 20) p b k xs s pos (omega (arith, high, low)) f below pool in
    (
      added k p xs,
      s',
      run,
      pool',
      below',
      (λ x ax lo hi.
          added-new k p x xs al ax (omega (arith, ax, lo, lt, al))
            (omega (arith, ax, al, hi, lo, lt))),
      (λ x on. added-old k p x xs on),
      lock,
    )
