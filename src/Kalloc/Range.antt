-- ===== src/Kalloc/Range.antt =====
-- freerange, kinit1 and kinit2: the pages of a range go on the free list.
use fp_sisop20_b.Prelude.{
  ℕ, ◌+◌, ◌%◌, ◌^◌, ◌≤◌, ◌<◌, ◌≡◌, refl, ◌∙◌, inl, inr, true, false, List, [], arith, ltb,
  Bool-cases,
}
use fp_sisop20_b.Run.{ok, ◌>>◌}
use fp_sisop20_b.Spinlock.{initlock}
use fp_sisop20_b.StateList.Chain.{has}
use fp_sisop20_b.Kalloc.{pgsize, kernbase, phystop, pgroundup, Kmem, freerange, kinit1, kinit2}
use fp_sisop20_b.Kalloc.Pages.{Pool}
use fp_sisop20_b.Kalloc.FreeRange.{Holds, pgroundup_lem, freerange_lem}

-- The allocator once kinit1 has set its lock up.
abbrev set_up : Kmem → Kmem
set_up s = record s {
  sync = record (s.sync) { lock = record { locked = false; cpu = 0 } };
  use_lock = false;
}

set_up-Pool :
    (end_at : ℕ) (s : Kmem)
    → s.freelist ≡ 0
    → (0 < s.sync.cpu.ncli → s.sync.cpu.interrupts ≡ false)
    → Pool end_at [] (set_up s)
set_up-Pool end_at s empty nested = record {
  chain = empty;
  distinct = tt;
  pages = λ v on. cc;
  lock = record { unlocked = refl; nested = nested };
}

kinit1_run : (end_at a b : ℕ) (s : Kmem) → kinit1 end_at a b s ≡ freerange end_at a b (set_up s)
unfolding kinit1 initlock
kinit1_run end_at a b s = refl

kinit2_run :
    (end_at b c : ℕ) (s t : Kmem)
    → freerange end_at b c s ≡ ok tt t
    → kinit2 end_at b c s ≡ ok tt (record t { use_lock = true })
unfolding kinit2
kinit2_run end_at b c s t e = rw e refl

used-Pool :
    (end_at : ℕ) (xs : List ℕ) (s : Kmem)
    → Pool end_at xs s
    → Pool end_at xs (record s { use_lock = true })
used-Pool end_at xs s p = record {
  chain = p.chain;
  distinct = p.distinct;
  pages = p.pages;
  lock = p.lock;
}

Holds-join :
    (a b c : ℕ) (xs ys : List ℕ)
    → b % pgsize ≡ 0
    → Holds a b xs
    → ((x : ℕ) → has x xs ≡ true → has x ys ≡ true)
    → Holds b c ys
    → Holds a c ys
Holds-join a b c xs ys al first kept second x ax lo hi = elim (Bool-cases (ltb x b)) [
  | inl lt ↦ kept x (first x ax lo (ground arith))
  | inr ge ↦ second x ax (ground arith) hi
]

pgroundup_aligned : (b : ℕ) → b + pgsize < 2 ^ 32 → b % pgsize ≡ 0 → pgroundup b ≡ b
pgroundup_aligned b h al = omega (arith, h, al)

init_run :
    (end_at a b c : ℕ) (s t : Kmem)
    → kinit1 end_at a b s ≡ ok tt t
    → (kinit1 end_at a b >> kinit2 end_at b c) s ≡ kinit2 end_at b c t
init_run end_at a b c s t e = rw e refl

-- The boot's two calls, kinit1(a, b) and then kinit2(b, c), take every whole page between `a` and `c` for
-- the free list, for page-aligned `b` and `c` and a range that is mapped memory above the kernel; the free
-- pages then are in order, each once, and the lock is in use.
pub kinit_lem :
    (end_at a b c : ℕ) (s : Kmem)
    → 0 < end_at
    → end_at ≤ a
    → kernbase ≤ a
    → a ≤ b
    → b ≤ c
    → c ≤ kernbase + phystop
    → b % pgsize ≡ 0
    → s.freelist ≡ 0
    → (0 < s.sync.cpu.ncli → s.sync.cpu.interrupts ≡ false)
    → (ys : List ℕ) × (s' : Kmem) × ((kinit1 end_at a b >> kinit2 end_at b c) s ≡ ok tt s')
      × Pool end_at ys s'
      × Holds a c ys
      × (s'.use_lock ≡ true)
kinit_lem end_at a b c s pos above high ab bc low al empty nested =
    let (al', ge, lt) = pgroundup_lem a (omega (arith, ab, bc, low)) in
    let round = pgroundup_aligned b (omega (arith, bc, low)) al in
    let (xs, t, run, pool, below, holds, old, l) =
      freerange_lem end_at a b [] (set_up s) pos above high (omega (arith, bc, low)) ab
        (omega (arith, al', ge, lt, al, ab)) (λ x on. cc) (set_up-Pool end_at s empty nested) in
    let (ys, u, run2, pool2, below2, holds2, old2, l2) =
      freerange_lem end_at b c xs t pos (omega (arith, above, ab)) (omega (arith, high, ab)) low bc
        (rw round bc) (rw round below) pool in
    (
      ys,
      record u { use_lock = true },
      init_run end_at a b c s t (kinit1_run end_at a b s ∙ run) ∙ kinit2_run end_at b c t u run2,
      used-Pool end_at ys u pool2,
      Holds-join a b c xs ys al holds old2 holds2,
      refl,
    )
