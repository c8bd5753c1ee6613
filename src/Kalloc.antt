-- ===== src/Kalloc.antt =====
-- kalloc.c: the free list of physical pages, linked through their first words. `mem` is the word at
-- each address that a multiple of 4 divides. `end_at` is the linker's symbol `end`.
pub mod Pages
pub mod FreeRange
pub mod Range
use fp_sisop20_b.Prelude.{
  ℕ, zero, suc, ◌+◌, ◌-◌, ◌*◌, ◌/◌, ◌%◌, ◌^◌, Bool, true, false, not, ◌&&◌, ◌||◌, ltb, leb, ◌==◌,
  if◌then◌else◌, update,
}
use fp_sisop20_b.Run.{
  Run, ok, panics, spins, faults, exhausted, lift_run, Cmd, pure, panic, panic_if, ◌>>=◌, ◌>>◌, get,
  modify,
}
use fp_sisop20_b.Spinlock.{Sync, initlock, acquire, release}

-- PGSIZE of mmu.h, KERNBASE and PHYSTOP of memlayout.h.
abbrev pub pgsize : ℕ
pgsize = 4096

abbrev pub kernbase : ℕ
kernbase = 2 ^ 31

abbrev pub phystop : ℕ
phystop = 14 * 2 ^ 24

abbrev pub v2p : ℕ → ℕ
v2p v = (v + 2 ^ 32 - kernbase) % 2 ^ 32

-- PGROUNDUP, on a `uint`.
abbrev pub pgroundup : ℕ → ℕ
pgroundup a = (a + (pgsize - 1)) % 2 ^ 32 / pgsize * pgsize

-- `kmem`, and the memory.
pub record Kmem : Type 0 where
  pub mem : ℕ → ℕ
  pub freelist : ℕ
  pub use_lock : Bool
  pub sync : Sync

abbrev pub on_sync : {A : Type 0} → Cmd Sync A → Cmd Kmem A
on_sync m s = lift_run (λ y. record s { sync = y }) (m s.sync)

-- A page of words, each of four bytes 1.
unfoldable pub junk : (v : ℕ) → (ℕ → ℕ) → ℕ → ℕ
junk v mem a = if leb v a && ltb a (v + pgsize) then 16843009 else mem a

-- `r->next = kmem.freelist; kmem.freelist = r;`
unfoldable pub push : ℕ → Kmem → Kmem
push v s = record s { mem = update (s.mem) v (s.freelist); freelist = v }

module _ (end_at : ℕ) where
  abbrev pub is_bad : ℕ → Bool
  is_bad v = not (v % pgsize == 0) || ltb v end_at || leb phystop (v2p v)

  unfoldable pub kfree : ℕ → Cmd Kmem (Unit {0})
  kfree v = do
    panic_if (is_bad v) "kfree"
    modify (λ s. record s { mem = junk v s.mem })
    locked ← get (λ s. s.use_lock)
    if locked then on_sync acquire else pure tt
    modify (push v)
    if locked then on_sync release else pure tt

  -- The loop of freerange: `for(; p + PGSIZE <= (char*)vend; p += PGSIZE)`.
  unfoldable pub free_loop : (fuel p vend : ℕ) → Cmd Kmem (Unit {0})
  free_loop zero p vend = λ _. exhausted
  free_loop (suc n) p vend =
      if leb (p + pgsize) vend then (do kfree p; free_loop n (p + pgsize) vend) else pure tt

  -- A range of the 32-bit address space holds fewer than 2 ^ 20 pages.
  unfoldable pub freerange : (vstart vend : ℕ) → Cmd Kmem (Unit {0})
  freerange vstart vend = free_loop (2 ^ 20) (pgroundup vstart) vend

  unfoldable pub kinit1 : (vstart vend : ℕ) → Cmd Kmem (Unit {0})
  kinit1 vstart vend = do
    on_sync initlock
    modify (λ s. record s { use_lock = false })
    freerange vstart vend

  unfoldable pub kinit2 : (vstart vend : ℕ) → Cmd Kmem (Unit {0})
  kinit2 vstart vend = do freerange vstart vend; modify (λ s. record s { use_lock = true })

unfoldable pub kalloc : Cmd Kmem ℕ
kalloc = do
  locked ← get (λ s. s.use_lock)
  if locked then on_sync acquire else pure tt
  r ← get (λ s. s.freelist)
  if r == 0 then pure tt else modify (λ s. record s { freelist = s.mem r })
  if locked then on_sync release else pure tt
  pure r
