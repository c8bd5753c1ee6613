-- ===== src/Proc/Init/Fill.antt =====
-- The loop of userinit that puts every process on the free list.
use fp_sisop20_b.Prelude.{
  ℕ, zero, suc, ◌+◌, ◌≤◌, ◌≡◌, ◌≢◌, refl, sym, subst, ◌∙◌, true, false, List, [], arith,
}
use fp_sisop20_b.Run.{ok}
use fp_sisop20_b.StateList.{
  Ptr, Slot, ready, Lists, success, nproc, max_priority, add_to_state_list_end,
}
use fp_sisop20_b.StateList.Chain.{has, Distinct, Chain}
use fp_sisop20_b.StateList.Single.{add_end-Moved}
use fp_sisop20_b.StateList.Range.{
  range-end, range, range_one-snoc, length-range, has-range, Distinct-range,
}
use fp_sisop20_b.Proc.{unused, Table}
use fp_sisop20_b.Proc.Invariant.{InTable, Inv}
use fp_sisop20_b.Proc.Requeue.{assert_state-ok}
use fp_sisop20_b.Proc.Init.{fill_loop}

-- Memory as main() finds it: no process on any list, and all of them unused.
pub record Blank (t : Table) : Type 0 where
  pub heads : (k : Slot) → t.lists.head k ≡ 0
  pub states : (p : Ptr) → (t.procs p).state ≡ unused
  pub bounded : (p : Ptr) → (t.procs p).priority ≤ max_priority

-- The first `n` processes are on the free list, and the other lists are empty.
record Filled (n : ℕ) (l : Lists) : Type 0 where
  chain : Chain l.next (l.head Slot.free) (range 1 n)
  heads : (k : Slot) → k ≢ Slot.free → l.head k ≡ 0

-- The lists after the loop.
abbrev pub full_queue : Slot → List Ptr
full_queue (ready i) = []
full_queue Slot.free = range 1 nproc
full_queue Slot.sleep = []
full_queue Slot.zombie = []
full_queue Slot.running = []
full_queue Slot.embryo = []

fill_loop_run :
    (n : ℕ) (p p' : Ptr) (t : Table) (l : Lists)
    → p + 1 ≡ p'
    → InTable p
    → (t.procs p).state ≡ unused
    → add_to_state_list_end Slot.free p t.lists ≡ ok success l
    → fill_loop (suc n) p t ≡ fill_loop n p' (record t { lists = l })
unfolding fill_loop
fill_loop_run n p p' t l e h st run = rw (assert_state-ok p unused t h st, run, e) refl

fill_step :
    (n : ℕ) (l : Lists)
    → suc n ≤ nproc
    → Filled n l
    → (l' : Lists) × (add_to_state_list_end Slot.free (suc n) l ≡ ok success l') × Filled (suc n) l'
fill_step n l small f =
    let out : has (suc n) (range 1 n) ≡ false = ground (arith, has-range (suc n) 1 n) in
    let (l', run, moved) =
      add_end-Moved Slot.free (suc n) l refl (range 1 n) (λ z. omega arith) out (Distinct-range 1 n)
        (omega (arith, small, length-range 1 n)) f.chain in
    (
      l',
      run,
      record {
        chain = subst (Chain l'.next (l'.head Slot.free)) (range_one-snoc n) moved.chain;
        heads = λ k ne. moved.heads k ne ∙ f.heads k ne;
      },
    )

fill_from :
    (n m : ℕ) (t : Table)
    → m + n ≡ nproc
    → ((p : Ptr) → (t.procs p).state ≡ unused)
    → Filled m t.lists
    → (l : Lists) × (fill_loop n (suc m) t ≡ ok tt (record t { lists = l })) × Filled nproc l
unfolding fill_loop
fill_from zero m t e st f = (t.lists, refl, subst (λ k. Filled k t.lists) (omega (arith, e)) f)
fill_from (suc n) m t e st f =
    let (l, run, f') = fill_step m t.lists (omega (arith, e)) f in
    let (l', run', f'') = fill_from n (suc m) (record t { lists = l }) (omega (arith, e)) st f' in
    (
      l',
      fill_loop_run n (suc m) (suc (suc m)) t l (omega arith) (omega arith, omega (arith, e))
            (st (suc m)) run
          ∙ run',
      f'',
    )

has-full : (k : Slot) (p : Ptr) → has p (full_queue k) ≡ true → (k ≡ Slot.free) × InTable p
has-full (ready i) p on = absurd (ground (arith, on))
has-full Slot.free p on = (refl, ground (arith, has-range p 1 nproc, on))
has-full Slot.sleep p on = absurd (ground (arith, on))
has-full Slot.zombie p on = absurd (ground (arith, on))
has-full Slot.running p on = absurd (ground (arith, on))
has-full Slot.embryo p on = absurd (ground (arith, on))

Filled-Chain : (l : Lists) → Filled nproc l → (k : Slot) → Chain l.next (l.head k) (full_queue k)
Filled-Chain l f (ready i) = f.heads (ready i) (λ e. cc)
Filled-Chain l f Slot.free = f.chain
Filled-Chain l f Slot.sleep = f.heads Slot.sleep (λ e. cc)
Filled-Chain l f Slot.zombie = f.heads Slot.zombie (λ e. cc)
Filled-Chain l f Slot.running = f.heads Slot.running (λ e. cc)
Filled-Chain l f Slot.embryo = f.heads Slot.embryo (λ e. cc)

Filled-IsOrdered : (t : Table) (l : Lists) → Blank t → Filled nproc l → Inv full_queue 0 t.procs l
Filled-IsOrdered t l b f = record {
  chain = Filled-Chain l f;
  distinct = full-Distinct;
  within = λ k p on. (has-full k p on).1;
  absent = λ k p on. let (e, in_table) = has-full k p on in omega (arith, in_table);
  at_home = λ k p on. let (e, in_table) = has-full k p on in rw (b.states p) (sym e);
  complete = λ p in_table ne. rw (b.states p) (full p in_table);
  bounded = b.bounded;
}
  where
    full-Distinct : (k : Slot) → Distinct (full_queue k)
    full-Distinct (ready i) = tt
    full-Distinct Slot.free = Distinct-range 1 nproc
    full-Distinct Slot.sleep = tt
    full-Distinct Slot.zombie = tt
    full-Distinct Slot.running = tt
    full-Distinct Slot.embryo = tt

    full : (p : Ptr) → InTable p → has p (range 1 nproc) ≡ true
    full p in_table = ground (arith, has-range p 1 nproc, in_table)

-- From zeroed memory the loop puts all processes on the free list, in the order of the table.
pub fill_lem :
    (t : Table)
    → Blank t
    → (l : Lists) × (fill_loop nproc 1 t ≡ ok tt (record t { lists = l }))
      × Inv full_queue 0 t.procs l
fill_lem t b =
    let (l, run, f) = fill_from nproc 0 t refl b.states empty in (l, run, Filled-IsOrdered t l b f)
  where
    empty : Filled 0 t.lists
    empty = record { chain = rw (range-end 1) (b.heads Slot.free); heads = λ k ne. b.heads k }
