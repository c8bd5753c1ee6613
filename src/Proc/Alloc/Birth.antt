-- ===== src/Proc/Alloc/Birth.antt =====
-- How fork() runs in each case, and the lists with the child.
use fp_sisop20_b.Prelude.{
  ℕ, ◌≡◌, ◌≢◌, refl, sym, ap, fun_ext, ◌∙◌, List, [], ◌∷◌, ◌++◌, ==_ne, ==_refl,
}
use fp_sisop20_b.Run.{ok}
use fp_sisop20_b.Spinlock.Critical.{IsFree, dropped, acquire-taken, release-dropped}
use fp_sisop20_b.StateList.{Ptr, Slot, ready, assign}
use fp_sisop20_b.StateList.Chain.{erase}
use fp_sisop20_b.StateList.Single.{assign_self, assign_ne}
use fp_sisop20_b.Proc.{idup, Table, State}
use fp_sisop20_b.Proc.Requeue.{requeued, stacked, stacked_to, stacked_from, stacked_ne}
use fp_sisop20_b.Proc.Edits.{edited}
use fp_sisop20_b.Proc.Alloc.{
  minus_one, nofile, allocproc, fork, dup_loop, abort_fork, ready_child, inherit, inherit_rest,
  set_pgdir,
}

pub none_run :
    (page pgdir : ℕ) (s s' : State)
    → allocproc page s ≡ ok 0 s'
    → fork page pgdir s ≡ ok minus_one s'
unfolding fork
none_run page pgdir s s' run = rw run refl

pub undone_run :
    (page : ℕ) (s s1 : State) (p : Ptr) (t : Table)
    → allocproc page s ≡ ok p s1
    → p ≢ 0
    → abort_fork p (edited s1.table p (set_pgdir 0)) ≡ ok tt t
    → fork page 0 s ≡ ok minus_one (record s1 { table = t })
unfolding fork edited
undone_run page s s1 p t run ne run' = rw (run, ==_ne ne, run') refl

abbrev pub with_cwd : Table → Ptr → Ptr → Table
with_cwd t current p =
    edited (record t { trace = idup ((t.procs current).cwd) ∷ t.trace }) p
      (inherit_rest (t.procs current))

pub born_run :
    (page pgdir : ℕ) (s s1 : State) (p : Ptr) (t2 t4 : Table)
    → allocproc page s ≡ ok p s1
    → p ≢ 0
    → pgdir ≢ 0
    → IsFree s1.sync
    → dup_loop nofile 0 s1.current p
        (edited s1.table p (inherit pgdir s1.current (s1.procs s1.current)))
      ≡ ok tt t2
    → ready_child p (with_cwd t2 s1.current p) ≡ ok tt t4
    → fork page pgdir s
      ≡ ok
          (((with_cwd t2 s1.current p).procs p).pid)
          (record s1 { table = t4; sync = dropped s1.sync })
unfolding fork edited
born_run page pgdir s s1 p t2 t4 run ne ne' f run2 run4 =
    rw
      (
        run,
        ==_ne ne,
        ==_ne ne',
        run2,
        acquire-taken s1.sync f.unlocked,
        run4,
        release-dropped s1.sync f,
      )
      refl

-- The lists with the child.
abbrev pub born : (Slot → List Ptr) → Ptr → List Ptr → Slot → List Ptr
born queue p rest =
    let left = assign queue Slot.free rest in assign left (ready 0) (left (ready 0) ++ p ∷ [])

pub born_lem :
    (queue : Slot → List Ptr) (p : Ptr) (rest : List Ptr)
    → queue Slot.free ≡ p ∷ rest
    → requeued (stacked queue p Slot.free Slot.embryo) p Slot.embryo (ready 0) ≡ born queue p rest
born_lem queue p rest e =
    ap (λ left. assign left (ready 0) (left (ready 0) ++ p ∷ [])) (fun_ext (λ k. by_slot k))
  where
    plain :
        (k : Slot)
        → k ≢ Slot.free
        → k ≢ Slot.embryo
        → assign
            (stacked queue p Slot.free Slot.embryo)
            Slot.embryo
            (erase p (stacked queue p Slot.free Slot.embryo Slot.embryo))
            k
          ≡ assign queue Slot.free rest k
    plain k ne ne' =
        assign_ne (stacked queue p Slot.free Slot.embryo) Slot.embryo _ k ne'
        ∙ stacked_ne queue p Slot.free Slot.embryo k ne ne'
        ∙ sym (assign_ne queue Slot.free rest k ne)

    by_slot :
        (k : Slot)
        → assign
            (stacked queue p Slot.free Slot.embryo)
            Slot.embryo
            (erase p (stacked queue p Slot.free Slot.embryo Slot.embryo))
            k
          ≡ assign queue Slot.free rest k
    by_slot Slot.free =
        assign_ne (stacked queue p Slot.free Slot.embryo) Slot.embryo _ Slot.free (λ d. cc)
        ∙ stacked_from queue p Slot.free Slot.embryo (λ d. cc)
        ∙ ap (erase p) e
        ∙ rw (==_refl p) (sym (assign_self queue Slot.free rest))
    by_slot Slot.embryo =
        assign_self (stacked queue p Slot.free Slot.embryo) Slot.embryo _
        ∙ ap (erase p) (stacked_to queue p Slot.free Slot.embryo (λ d. cc))
        ∙ rw (==_refl p) (sym (assign_ne queue Slot.free rest Slot.embryo (λ d. cc)))
    by_slot Slot.sleep = plain Slot.sleep (λ d. cc) (λ d. cc)
    by_slot Slot.zombie = plain Slot.zombie (λ d. cc) (λ d. cc)
    by_slot Slot.running = plain Slot.running (λ d. cc) (λ d. cc)
    by_slot (ready i) = plain (ready i) (λ d. cc) (λ d. cc)
