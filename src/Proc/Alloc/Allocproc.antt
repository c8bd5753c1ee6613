-- ===== src/Proc/Alloc/Allocproc.antt =====
-- allocproc() as a whole.
use fp_sisop20_b.Prelude.{
  ℕ, ◌+◌, ◌%◌, ◌^◌, ◌≡◌, ◌≢◌, refl, sym, ap, fun_ext, ◌∙◌, List, ◌∷◌, ==_ne, ==_refl,
}
use fp_sisop20_b.Run.{ok}
use fp_sisop20_b.Spinlock.Critical.{IsFree, dropped, acquire-taken, release-dropped}
use fp_sisop20_b.StateList.{Ptr, Slot, load_head}
use fp_sisop20_b.StateList.Chain.{erase}
use fp_sisop20_b.Proc.{Proc, unused, embryo, Table, State, set_state}
use fp_sisop20_b.Proc.Invariant.{InTable, IsOrdered}
use fp_sisop20_b.Proc.Requeue.{stacked, stacked_to, stacked_from, stacked_ne}
use fp_sisop20_b.Proc.Edits.{edited, edited_self, edited_ne, edited-trace, edited-IsOrdered}
use fp_sisop20_b.Proc.Alloc.{hatch, unhatch, allocproc, set_pid, set_kstack, fresh}
use fp_sisop20_b.Proc.Alloc.Hatch.{Restated}

-- The state when the lock is given back, with table `t`.
abbrev pub numbered : State → Table → State
numbered s t = record s { table = t; nextpid = (s.nextpid + 1) % 2 ^ 32; sync = dropped s.sync }

-- The table with the pid and the page of the stack.
abbrev pub paged : ℕ → ℕ → Table → Ptr → Table
paged pid page t p = edited (edited t p (set_pid pid)) p (set_kstack page)

pub none_run :
    (page : ℕ) (s : State)
    → IsFree s.sync
    → s.lists.head Slot.free ≡ 0
    → allocproc page s ≡ ok 0 (record s { sync = dropped s.sync })
unfolding allocproc load_head
none_run page s f e = rw (acquire-taken s.sync f.unlocked, e, release-dropped s.sync f) refl

pub full_run :
    (s : State) (p : Ptr) (t t' : Table)
    → IsFree s.sync
    → s.lists.head Slot.free ≡ p
    → p ≢ 0
    → hatch p s.table ≡ ok tt t
    → unhatch p (paged s.nextpid 0 t p) ≡ ok tt t'
    → allocproc 0 s ≡ ok 0 (numbered s t')
unfolding allocproc load_head edited
full_run s p t t' f e ne run run' =
    rw (acquire-taken s.sync f.unlocked, e, ==_ne ne, run, release-dropped s.sync f, run') refl

pub some_run :
    (page : ℕ) (s : State) (p : Ptr) (t : Table)
    → IsFree s.sync
    → s.lists.head Slot.free ≡ p
    → p ≢ 0
    → page ≢ 0
    → hatch p s.table ≡ ok tt t
    → allocproc page s ≡ ok p (numbered s (edited (paged s.nextpid page t p) p (fresh s.ticks)))
unfolding allocproc load_head edited
some_run page s p t f e ne ne' run =
    rw (acquire-taken s.sync f.unlocked, e, ==_ne ne, run, release-dropped s.sync f, ==_ne ne') refl

-- Off the free list and back to its head: the lists are as they were.
pub restored :
    (queue : Slot → List Ptr) (p : Ptr) (rest : List Ptr)
    → queue Slot.free ≡ p ∷ rest
    → stacked (stacked queue p Slot.free Slot.embryo) p Slot.embryo Slot.free ≡ queue
restored queue p rest e = fun_ext (λ k. by_slot k)
  where
    plain :
        (k : Slot)
        → k ≢ Slot.free
        → k ≢ Slot.embryo
        → stacked (stacked queue p Slot.free Slot.embryo) p Slot.embryo Slot.free k ≡ queue k
    plain k ne ne' =
        stacked_ne (stacked queue p Slot.free Slot.embryo) p Slot.embryo Slot.free k ne' ne
        ∙ stacked_ne queue p Slot.free Slot.embryo k ne ne'

    by_slot :
        (k : Slot)
        → stacked (stacked queue p Slot.free Slot.embryo) p Slot.embryo Slot.free k ≡ queue k
    by_slot Slot.free =
        stacked_to (stacked queue p Slot.free Slot.embryo) p Slot.embryo Slot.free (λ d. cc)
        ∙ ap (λ xs. p ∷ xs)
            (stacked_from queue p Slot.free Slot.embryo (λ d. cc)
              ∙ ap (erase p) e
              ∙ rw (==_refl p) refl)
        ∙ sym e
    by_slot Slot.embryo =
        stacked_from (stacked queue p Slot.free Slot.embryo) p Slot.embryo Slot.free (λ d. cc)
        ∙ ap (erase p) (stacked_to queue p Slot.free Slot.embryo (λ d. cc))
        ∙ rw (==_refl p) refl
    by_slot Slot.sleep = plain Slot.sleep (λ d. cc) (λ d. cc)
    by_slot Slot.zombie = plain Slot.zombie (λ d. cc) (λ d. cc)
    by_slot Slot.running = plain Slot.running (λ d. cc) (λ d. cc)
    by_slot (Slot.ready i) = plain (Slot.ready i) (λ d. cc) (λ d. cc)

-- The process as allocproc() finds it and as it leaves it.
abbrev pub numbered_embryo : State → ℕ → Proc → Proc
numbered_embryo s page q = set_kstack page (set_pid s.nextpid (set_state embryo q))

-- A process is unused, and stands first on the free list.
pub record IsNext (queue : Slot → List Ptr) (s : State) (p : Ptr) (rest : List Ptr) : Type 0 where
  pub is_first : queue Slot.free ≡ p ∷ rest
  pub in_table : InTable p
  pub is_unused : (s.procs p).state ≡ unused

-- What changes in any case where there is a free process.
pub record Numbered (s : State) (p : Ptr) (q : Proc) (s' : State) : Type 0 where
  pub self : s'.procs p ≡ q
  pub others : (r : Ptr) → r ≢ p → s'.procs r ≡ s.procs r
  pub trace : s'.trace ≡ s.trace
  pub nextpid : s'.nextpid ≡ (s.nextpid + 1) % 2 ^ 32
  pub sync : s'.sync ≡ dropped s.sync
  pub current : s'.current ≡ s.current
  pub timer : s'.promote_at ≡ s.promote_at

module _ (queue : Slot → List Ptr) (s : State) (p : Ptr) (page : ℕ) (t : Table) (h : InTable p)
    (w : Restated queue s.table p Slot.free Slot.embryo (set_state embryo (s.procs p)) t) where
  pub paged_self : (paged s.nextpid page t p).procs p ≡ numbered_embryo s page (s.procs p)
  paged_self =
      edited_self (edited t p (set_pid s.nextpid)) p (set_kstack page)
      ∙ ap (set_kstack page) (edited_self t p (set_pid s.nextpid) ∙ ap (set_pid s.nextpid) w.self)

  pub paged_ne : (r : Ptr) → r ≢ p → (paged s.nextpid page t p).procs r ≡ s.procs r
  paged_ne r ne =
      edited_ne (edited t p (set_pid s.nextpid)) p (set_kstack page) r ne
      ∙ edited_ne t p (set_pid s.nextpid) r ne
      ∙ w.same r ne

  pub paged-trace : (paged s.nextpid page t p).trace ≡ t.trace
  paged-trace =
      edited-trace (edited t p (set_pid s.nextpid)) p (set_kstack page)
      ∙ edited-trace t p (set_pid s.nextpid)

  pub paged-IsOrdered : IsOrdered (stacked queue p Slot.free Slot.embryo) (paged s.nextpid page t p)
  unfolding set_pid set_kstack
  paged-IsOrdered =
      edited-IsOrdered _ (edited t p (set_pid s.nextpid)) p (set_kstack page) refl
        (rw (edited_self t p (set_pid s.nextpid)) (w.ordered.bounded p))
        (edited-IsOrdered _ t p (set_pid s.nextpid) refl (w.ordered.bounded p) w.ordered)
