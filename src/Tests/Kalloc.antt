-- ===== src/Tests/Kalloc.antt =====
-- The theorems on the page allocator, at an empty free list and a kernel that ends 1 MB above KERNBASE.
use fp_sisop20_b.Prelude.{ℕ, ◌+◌, ◌^◌, ◌≡◌, refl, ◌⊎◌, false, true, List, [], ◌∷◌, arith}
use fp_sisop20_b.Run.{ok, panics, ◌>>◌}
use fp_sisop20_b.Spinlock.Critical.{IsFree}
use fp_sisop20_b.StateList.Chain.{has}
use fp_sisop20_b.Examples.{free_sync}
use fp_sisop20_b.Kalloc.{Kmem, is_bad, kfree, kalloc, kinit1, kinit2}
use fp_sisop20_b.Kalloc.Pages.{IsPage, Pool, Freed, kfree_lem, kalloc_lem}
use fp_sisop20_b.Kalloc.Range.{kinit_lem}
use fp_sisop20_b.Kalloc.FreeRange.{Holds}

abbrev kernel_end : ℕ
kernel_end = 2 ^ 31 + 2 ^ 20

abbrev page : ℕ
page = 2 ^ 31 + 2 ^ 22

abbrev boot : Kmem
boot = record { mem = λ a. 0; freelist = 0; use_lock = true; sync = free_sync }

free : IsFree free_sync
free = record { unlocked = refl; nested = λ h. absurd (omega arith) }

boot-Pool : Pool kernel_end [] boot
boot-Pool = record { chain = refl; distinct = tt; pages = λ v on. cc; lock = free }

page-IsPage : IsPage kernel_end page
page-IsPage = record { aligned = omega arith; above = omega arith; below = omega arith }

abbrev one_free : Kmem
one_free = record boot { freelist = page }

one_free-Pool : Pool kernel_end (page ∷ []) one_free
one_free-Pool = record {
  chain = (refl, (λ z. omega arith), refl);
  distinct = (refl, tt);
  pages = pages;
  lock = free;
}
  where
    pages : (v : ℕ) → has v (page ∷ []) ≡ true → IsPage kernel_end v
    pages v on = let e : v ≡ page = ground arith in rw e page-IsPage

bad_address : is_bad kernel_end (page + 1) ≡ true
bad_address = refl

good_address : is_bad kernel_end page ≡ false
good_address = refl

kfree_example :
    ((IsPage kernel_end page → ⊥) × (kfree kernel_end page boot ≡ panics "kfree"))
    ⊎ (IsPage kernel_end page
        × ((s' : Kmem) × (kfree kernel_end page boot ≡ ok tt s')
            × Freed kernel_end page [] boot s'))
kfree_example = kfree_lem kernel_end page [] boot (omega arith) refl boot-Pool

kalloc_example :
    (s' : Kmem) × (s'.mem ≡ one_free.mem)
    × (((page ∷ [] ≡ []) × (kalloc one_free ≡ ok 0 s') × Pool kernel_end [] s')
        ⊎ ((v : ℕ) × (ys : List ℕ) × (page ∷ [] ≡ v ∷ ys)
            × (kalloc one_free ≡ ok v s')
            × IsPage kernel_end v
            × (has v ys ≡ false)
            × Pool kernel_end ys s'))
kalloc_example = kalloc_lem kernel_end (page ∷ []) one_free one_free-Pool

kinit_example :
    (ys : List ℕ) × (s' : Kmem) × ((kinit1 kernel_end kernel_end page
          >> kinit2 kernel_end page (2 ^ 31 + 2 ^ 23))
        boot
      ≡ ok tt s')
    × Pool kernel_end ys s'
    × Holds kernel_end (2 ^ 31 + 2 ^ 23) ys
    × (s'.use_lock ≡ true)
kinit_example =
    kinit_lem kernel_end kernel_end page (2 ^ 31 + 2 ^ 23) boot (omega arith) (omega arith)
      (omega arith) (omega arith) (omega arith) (omega arith) (omega arith) refl
      (λ h. absurd (omega arith))
