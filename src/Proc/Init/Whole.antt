-- ===== src/Proc/Init/Whole.antt =====
-- userinit as a whole.
use fp_sisop20_b.Prelude.{
  ℕ, ◌+◌, ◌%◌, ◌^◌, ◌≡◌, ◌≢◌, refl, sym, ap, fun_ext, subst, ◌∙◌, ◌⊎◌, inl, inr, List, [], ◌∷◌,
  arith, ◌==◌, ==→eq, ==→ne, Bool-cases, length,
}
use fp_sisop20_b.Run.{ok, panics, faults}
use fp_sisop20_b.Spinlock.Critical.{IsFree, dropped}
use fp_sisop20_b.StateList.{Ptr, Slot, Lists, nproc}
use fp_sisop20_b.StateList.Chain.{head}
use fp_sisop20_b.StateList.Range.{range, range-first, length-range}
use fp_sisop20_b.Proc.{Proc, runnable, Table, State, time_to_promote, set_state}
use fp_sisop20_b.Proc.Invariant.{IsOrdered}
use fp_sisop20_b.Proc.Alloc.{set_pgdir, fresh}
use fp_sisop20_b.Proc.Alloc.Result.{Allocated, allocproc_lem, numbered-state, fresh-priority}
use fp_sisop20_b.Proc.Init.{fill_loop, first_image, userinit}
use fp_sisop20_b.Proc.Init.Fill.{Blank, full_queue, fill_lem}
use fp_sisop20_b.Proc.Init.Launch.{OneEmbryo, launch_lem}
use fp_sisop20_b.Proc.Init.Boot.{
  imaged, filled, booted, fault_run, memory_run, boot_run, new_queue, new-embryo, new-empty,
  boot_queue, boot_queue_end, FirstProcess, first_process, first-FirstProcess, imaged_self,
  imaged_ne, imaged-IsOrdered, image-state, image-priority,
}

-- The state that userinit() leaves.
pub record Booted (page pgdir cwd : ℕ) (s s' : State) : Type 0 where
  pub run : userinit page pgdir cwd s ≡ ok tt s'
  pub ordered : IsOrdered boot_queue s'.table
  pub first : FirstProcess page pgdir cwd s (s'.procs 1)
  pub others : (r : Ptr) → r ≢ 1 → s'.procs r ≡ s.procs r
  pub init : s'.initproc ≡ 1
  pub timer : s'.promote_at ≡ time_to_promote
  pub nextpid : s'.nextpid ≡ (s.nextpid + 1) % 2 ^ 32
  pub sync : s'.sync ≡ dropped s.sync

fresh-state : (ticks : ℕ) (q : Proc) → (fresh ticks q).state ≡ q.state
unfolding fresh
fresh-state ticks q = refl

module _ (page pgdir cwd : ℕ) (s : State) (l : Lists) (s' : State)
    (a : Allocated full_queue page (filled s l) 1 (range 2 63) s') where
  abbrev image : Table
  image = imaged pgdir cwd s'.table 1

  image_self : image.procs 1 ≡ first_process page pgdir cwd s (s.procs 1)
  image_self =
      imaged_self pgdir cwd s'.table 1
      ∙ ap (λ q. first_image 1 cwd (set_pgdir pgdir q)) a.after.self

  one_embryo : OneEmbryo new_queue image 1
  one_embryo = record {
    ordered = imaged-IsOrdered new_queue pgdir cwd s'.table 1 a.ordered;
    in_table = omega arith;
    is_embryo =
        ap (λ q. q.state) (imaged_self pgdir cwd s'.table 1)
        ∙ image-state pgdir cwd 1 (s'.procs 1)
        ∙ ap (λ q. q.state) a.after.self
        ∙ fresh-state s.ticks _
        ∙ numbered-state s page (s.procs 1);
    at_top =
        ap (λ q. q.priority) (imaged_self pgdir cwd s'.table 1)
        ∙ image-priority pgdir cwd 1 (s'.procs 1)
        ∙ ap (λ q. q.priority) a.after.self
        ∙ fresh-priority s.ticks _;
    only = new-embryo;
    empty = new-empty;
  }

  boot :
      pgdir ≢ 0
      → fill_loop nproc 1 s.table ≡ ok tt (record (s.table) { lists = l })
      → (s'' : State) × Booted page pgdir cwd s s''
  boot ne fill =
      let (t, w) = launch_lem new_queue image 1 one_embryo in
      (
        booted s' 1 t,
        record {
          run = boot_run page pgdir cwd s l s' fill 1 t (λ z. omega (arith, z)) ne a.run w.run;
          ordered = subst (λ k. IsOrdered k t) (fun_ext boot_queue_end) w.ordered;
          first =
              subst (FirstProcess page pgdir cwd s)
                (sym (w.self ∙ ap (set_state runnable) image_self))
                (first-FirstProcess page pgdir cwd s (s.procs 1));
          others =
              λ r ne1. w.same r ne1 ∙ imaged_ne pgdir cwd s'.table 1 r ne1 ∙ a.after.others r ne1;
          init = refl;
          timer = a.after.timer;
          nextpid = a.after.nextpid;
          sync = a.after.sync;
        },
      )

abbrev tail : List Ptr → List Ptr
tail [] = []
tail (x ∷ xs) = xs

-- The process that allocproc() takes is the first of the table.
is_first :
    (p : Ptr) (rest : List Ptr) → full_queue Slot.free ≡ p ∷ rest → (p ≡ 1) × (rest ≡ range 2 63)
is_first p rest e =
    (sym (ap head e) ∙ ap head (range-first 1 63), sym (ap tail e) ∙ ap tail (range-first 1 63))

not-empty : full_queue Slot.free ≢ []
not-empty e = let n = sym (length-range 1 64) ∙ ap length e in omega (arith, n)

at_first :
    (page : ℕ) (s s' : State) (p : Ptr) (rest : List Ptr)
    → Allocated full_queue page s p rest s'
    → Allocated full_queue page s 1 (range 2 63) s'
at_first page s s' p rest a =
    let (e, e') = is_first p rest a.is_next.is_first in
    subst (λ xs. Allocated full_queue page s 1 xs s') e'
      (subst (λ q. Allocated full_queue page s q rest s') e a)

-- userinit(), called on zeroed memory with the lock free, ends in one of three ways. Without a page for
-- the stack it writes through a null pointer, and without a page directory it panics. With both, the
-- first process of the table is ready to run initcode, alone on the ready list of the highest priority;
-- the other 63 are on the free list in the order of the table; nothing else is on a list.
pub userinit_lem :
    (page pgdir cwd : ℕ) (s : State)
    → Blank s.table
    → IsFree s.sync
    → ((page ≡ 0) × (userinit page pgdir cwd s ≡ faults))
      ⊎ ((page ≢ 0) × (pgdir ≡ 0) × (userinit page pgdir cwd s ≡ panics "userinit: out of memory?"))
      ⊎ ((page ≢ 0) × (pgdir ≢ 0) × ((s' : State) × Booted page pgdir cwd s s'))
userinit_lem page pgdir cwd s blank f =
    let (l, fill, inv) = fill_lem s.table blank in
    elim (allocproc_lem full_queue page (filled s l) inv f) [
      | inl none ↦ absurd (not-empty (none.empty))
      | inr (inl (p, rest, s', w)) ↦ inl (w.no_page, fault_run page pgdir cwd s l s' fill w.run)
      | inr (inr (p, rest, s', a)) ↦ with_pgdir l s' fill (at_first page (filled s l) s' p rest a)
    ]
  where
    with_pgdir :
        (l : Lists) (s' : State)
        → fill_loop nproc 1 s.table ≡ ok tt (record (s.table) { lists = l })
        → Allocated full_queue page (filled s l) 1 (range 2 63) s'
        → ((page ≡ 0) × (userinit page pgdir cwd s ≡ faults))
          ⊎ ((page ≢ 0)
              × (pgdir ≡ 0)
              × (userinit page pgdir cwd s ≡ panics "userinit: out of memory?"))
          ⊎ ((page ≢ 0) × (pgdir ≢ 0) × ((s' : State) × Booted page pgdir cwd s s'))
    with_pgdir l s' fill a = elim (Bool-cases (pgdir == 0)) [
      | inl none ↦
          let e = ==→eq pgdir 0 none in
          inr (
            inl (
              a.a_page,
              e,
              rw e (memory_run page 0 cwd s l s' fill 1 (λ z. omega (arith, z)) a.run),
            ))
      | inr some_ ↦
          let ne = ==→ne pgdir 0 some_ in
          inr (inr (a.a_page, ne, boot page pgdir cwd s l s' a ne fill))
    ]
