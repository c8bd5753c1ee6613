-- ===== src/Kalloc/Pages.antt =====
-- kfree and kalloc on the list of free pages.
use fp_sisop20_b.Prelude.{
  ℕ, ◌+◌, ◌%◌, ◌≤◌, ◌<◌, ◌≡◌, ◌≢◌, refl, sym, ap, subst, ◌∙◌, ◌⊎◌, inl, inr, true, false, ◌&&◌,
  List, [], ◌∷◌, arith, ◌==◌, ==_ne, ==→eq, ltb, leb, Bool-cases, if◌then◌else◌, update,
  update_self, update_ne,
}
use fp_sisop20_b.Run.{ok, panics}
use fp_sisop20_b.Spinlock.{Sync}
use fp_sisop20_b.Spinlock.Critical.{IsFree, dropped, dropped-IsFree, acquire-taken, release-dropped}
use fp_sisop20_b.StateList.Chain.{has, Distinct, Chain, Chain-frame}
use fp_sisop20_b.Kalloc.{pgsize, phystop, v2p, Kmem, junk, push, is_bad, kfree, kalloc}

-- A page that the allocator takes.
pub record IsPage (end_at v : ℕ) : Type 0 where
  pub aligned : v % pgsize ≡ 0
  pub above : end_at ≤ v
  pub below : v2p v < phystop

is_bad_lem :
    (end_at v : ℕ)
    → ((is_bad end_at v ≡ true) × (IsPage end_at v → ⊥))
      ⊎ ((is_bad end_at v ≡ false) × IsPage end_at v)
is_bad_lem end_at v = elim (Bool-cases (is_bad end_at v)) [
  | inl bad ↦
      inl (bad, λ q. let a = q.aligned in let b = q.above in let c = q.below in ground arith)
  | inr good ↦
      inr (good, record { aligned = ground arith; above = ground arith; below = ground arith })
]

-- The free pages are `xs`, and the lock is free.
pub record Pool (end_at : ℕ) (xs : List ℕ) (s : Kmem) : Type 0 where
  pub chain : Chain s.mem s.freelist xs
  pub distinct : Distinct xs
  pub pages : (v : ℕ) → has v xs ≡ true → IsPage end_at v
  pub lock : IsFree s.sync

-- The lock after a call.
abbrev pub unlocked : Kmem → Sync
unlocked s = if s.use_lock then dropped s.sync else s.sync

unlocked-IsFree : (s : Kmem) → IsFree s.sync → IsFree (unlocked s)
unlocked-IsFree s f = elim (Bool-cases s.use_lock) [
  | inl on ↦ rw on (dropped-IsFree s.sync f)
  | inr off ↦ rw off f
]

-- The state after kfree(v).
abbrev freed : ℕ → Kmem → Kmem
freed v s = record (push v (record s { mem = junk v s.mem })) { sync = unlocked s }

kfree_run :
    (end_at v : ℕ) (s : Kmem)
    → is_bad end_at v ≡ false
    → IsFree s.sync
    → kfree end_at v s ≡ ok tt (freed v s)
unfolding kfree push
kfree_run end_at v s good f = elim (Bool-cases s.use_lock) [
  | inl on ↦ rw (good, on, acquire-taken s.sync f.unlocked, release-dropped s.sync f) refl
  | inr off ↦ rw (good, off) refl
]

pub kfree_bad :
    (end_at v : ℕ) (s : Kmem) → is_bad end_at v ≡ true → kfree end_at v s ≡ panics "kfree"
unfolding kfree
kfree_bad end_at v s bad = rw bad refl

-- Two pages that differ do not overlap.
apart :
    (v x : ℕ) → v % pgsize ≡ 0 → x % pgsize ≡ 0 → x ≢ v → (leb v x && ltb x (v + pgsize)) ≡ false
apart v x a b ne = ground arith

junk_ne : (v x : ℕ) (mem : ℕ → ℕ) → v % pgsize ≡ 0 → x % pgsize ≡ 0 → x ≢ v → junk v mem x ≡ mem x
unfolding junk
junk_ne v x mem a b ne = rw (apart v x a b ne) refl

junk_out : (v a : ℕ) (mem : ℕ → ℕ) → (a < v) ⊎ (v + pgsize ≤ a) → junk v mem a ≡ mem a
unfolding junk
junk_out v a mem h = ground arith

junk_in : (v a : ℕ) (mem : ℕ → ℕ) → v < a → a < v + pgsize → junk v mem a ≡ 16843009
unfolding junk
junk_in v a mem lo hi = ground arith

-- The page as kfree leaves it: its first word links to the old list, the others are junk.
pub record Freed (end_at v : ℕ) (xs : List ℕ) (s s' : Kmem) : Type 0 where
  pub pool : Pool end_at (v ∷ xs) s'
  pub elsewhere : (a : ℕ) → (a < v) ⊎ (v + pgsize ≤ a) → s'.mem a ≡ s.mem a
  pub filled : (a : ℕ) → v < a → a < v + pgsize → s'.mem a ≡ 16843009
  pub use_lock : s'.use_lock ≡ s.use_lock

page_ne : (end_at v x : ℕ) (xs : List ℕ) → has v xs ≡ false → has x xs ≡ true → x ≢ v
page_ne end_at v x xs out on e = let on' : has v xs ≡ true = subst (λ y. has y xs ≡ true) e on in cc

freed-Freed :
    (end_at v : ℕ) (xs : List ℕ) (s : Kmem)
    → 0 < end_at
    → IsPage end_at v
    → has v xs ≡ false
    → Pool end_at xs s
    → Freed end_at v xs s (freed v s)
unfolding push
freed-Freed end_at v xs s pos page out p =
    let kept = λ (x : ℕ) (on : has x xs ≡ true).
      update_ne (junk v s.mem) v s.freelist (page_ne end_at v x xs out on)
      ∙ junk_ne v x s.mem page.aligned (p.pages x on).aligned (page_ne end_at v x xs out on) in
    record {
      pool = record {
        chain = (
          refl,
          (λ z. omega (arith, page.above)),
          subst (λ h. Chain (update (junk v s.mem) v s.freelist) h xs)
              (sym (update_self (junk v s.mem) v s.freelist))
              (Chain-frame s.mem (update (junk v s.mem) v s.freelist) s.freelist xs kept p.chain),
        );
        distinct = (out, p.distinct);
        pages = λ x on. elim (Bool-cases (x == v)) [
          | inl is ↦ subst (IsPage end_at) (sym (==→eq x v is)) page
          | inr ne ↦ p.pages x (ground arith)
        ];
        lock = unlocked-IsFree s p.lock;
      };
      elsewhere = λ a h. update_ne (junk v s.mem) v s.freelist (away a h) ∙ junk_out v a s.mem h;
      filled = λ a lo hi.
          update_ne (junk v s.mem) v s.freelist (λ z. omega arith) ∙ junk_in v a s.mem lo hi;
      use_lock = refl;
    }
  where
    away : (a : ℕ) → (a < v) ⊎ (v + pgsize ≤ a) → a ≢ v
    away a (inl h) z = omega arith
    away a (inr h) z = omega arith

-- kfree, of an address that is not on the list of free pages, panics exactly where the address is no
-- page of the allocator: not aligned, below `end_at`, or from PHYSTOP on. Otherwise it fills the page with junk, puts it in front of the free pages and changes no other word;
-- the pool stays in order.
pub kfree_lem :
    (end_at v : ℕ) (xs : List ℕ) (s : Kmem)
    → 0 < end_at
    → has v xs ≡ false
    → Pool end_at xs s
    → ((IsPage end_at v → ⊥) × (kfree end_at v s ≡ panics "kfree"))
      ⊎ (IsPage end_at v × ((s' : Kmem) × (kfree end_at v s ≡ ok tt s') × Freed end_at v xs s s'))
kfree_lem end_at v xs s pos out p = elim (is_bad_lem end_at v) [
  | inl (bad, no_page) ↦ inl (no_page, kfree_bad end_at v s bad)
  | inr (good, page) ↦ inr (
    page,
    (freed v s, kfree_run end_at v s good p.lock, freed-Freed end_at v xs s pos page out p),
  )
]

-- A page that is one is not refused.
pub kfree_page :
    (end_at v : ℕ) (xs : List ℕ) (s : Kmem)
    → 0 < end_at
    → IsPage end_at v
    → has v xs ≡ false
    → Pool end_at xs s
    → (s' : Kmem) × (kfree end_at v s ≡ ok tt s') × Freed end_at v xs s s'
kfree_page end_at v xs s pos page out p = (
  freed v s,
  kfree_run end_at v s (not_bad end_at v page) p.lock,
  freed-Freed end_at v xs s pos page out p,
)
  where
    not_bad : (e u : ℕ) → IsPage e u → is_bad e u ≡ false
    not_bad e u q = let a = q.aligned in let b = q.above in let c = q.below in ground arith

-- The state after kalloc() where a page is free, and where none is.
abbrev taken_off : Kmem → Kmem
taken_off s = record s { freelist = s.mem s.freelist; sync = unlocked s }

abbrev untouched : Kmem → Kmem
untouched s = record s { sync = unlocked s }

kalloc_run : (s : Kmem) → s.freelist ≢ 0 → IsFree s.sync → kalloc s ≡ ok s.freelist (taken_off s)
unfolding kalloc
kalloc_run s ne f = elim (Bool-cases s.use_lock) [
  | inl on ↦ rw (on, acquire-taken s.sync f.unlocked, ==_ne ne, release-dropped s.sync f) refl
  | inr off ↦ rw (off, ==_ne ne) refl
]

kalloc_empty : (s : Kmem) → s.freelist ≡ 0 → IsFree s.sync → kalloc s ≡ ok 0 (untouched s)
unfolding kalloc
kalloc_empty s z f = elim (Bool-cases s.use_lock) [
  | inl on ↦ rw (on, acquire-taken s.sync f.unlocked, z, release-dropped s.sync f) refl
  | inr off ↦ rw (off, z) refl
]

untouched-Pool : (end_at : ℕ) (s : Kmem) → Pool end_at [] s → Pool end_at [] (untouched s)
untouched-Pool end_at s p = record {
  chain = p.chain;
  distinct = tt;
  pages = p.pages;
  lock = unlocked-IsFree s p.lock;
}

taken_off-Pool :
    (end_at v : ℕ) (ys : List ℕ) (s : Kmem) → Pool end_at (v ∷ ys) s → Pool end_at ys (taken_off s)
taken_off-Pool end_at v ys s p = record {
  chain = subst (λ h. Chain s.mem (s.mem h) ys) (sym p.chain.0) p.chain.2;
  distinct = p.distinct.1;
  pages = λ x on. p.pages x (rw on (ground arith));
  lock = unlocked-IsFree s p.lock;
}

-- kalloc() gives the first free page, which is then no longer free, or 0 where none is, and changes
-- no word of memory; the pool stays in order.
pub kalloc_lem :
    (end_at : ℕ) (xs : List ℕ) (s : Kmem)
    → Pool end_at xs s
    → (s' : Kmem) × (s'.mem ≡ s.mem)
      × (((xs ≡ []) × (kalloc s ≡ ok 0 s') × Pool end_at [] s')
          ⊎ ((v : ℕ) × (ys : List ℕ) × (xs ≡ v ∷ ys)
              × (kalloc s ≡ ok v s')
              × IsPage end_at v
              × (has v ys ≡ false)
              × Pool end_at ys s'))
kalloc_lem end_at [] s p =
    (untouched s, refl, inl (refl, kalloc_empty s p.chain p.lock, untouched-Pool end_at s p))
kalloc_lem end_at (v ∷ ys) s p = (
  taken_off s,
  refl,
  inr (
    v,
    ys,
    refl,
    kalloc_run s (λ z. p.chain.1 (sym p.chain.0 ∙ z)) p.lock
        ∙ ap (λ r. ok r (taken_off s)) p.chain.0,
    p.pages v (ground arith),
    p.distinct.0,
    taken_off-Pool end_at v ys s p,
  ),
)
