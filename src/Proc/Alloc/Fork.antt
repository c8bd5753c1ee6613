-- ===== src/Proc/Alloc/Fork.antt =====
-- fork() as a whole.
use fp_sisop20_b.Prelude.{
  ℕ, ◌≡◌, ◌≢◌, sym, ap, ap₂, subst, ◌∙◌, inl, inr, List, ◌∷◌, arith, ◌==◌, ==→eq, ==→ne, Bool-cases,
}
use fp_sisop20_b.Run.{ok}
use fp_sisop20_b.Spinlock.{Sync}
use fp_sisop20_b.Spinlock.Critical.{IsFree, dropped, dropped-IsFree}
use fp_sisop20_b.StateList.{Ptr, Slot}
use fp_sisop20_b.Proc.{
  Proc, ProcState, unused, runnable, running, idup, kfree, Event, Table, State, set_state,
}
use fp_sisop20_b.Proc.Invariant.{IsOrdered}
use fp_sisop20_b.Proc.Requeue.{set_state-state, stacked}
use fp_sisop20_b.Proc.Edits.{edited, edited_self, edited_ne, edited-trace, edited-IsOrdered}
use fp_sisop20_b.Proc.Alloc.{minus_one, nofile, fork, inherit, inherit_rest, fresh, set_pgdir}
use fp_sisop20_b.Proc.Alloc.Allocproc.{restored, numbered_embryo}
use fp_sisop20_b.Proc.Alloc.Result.{NoStack, Allocated, allocproc_lem}
use fp_sisop20_b.Proc.Alloc.Files.{dups, shared, with_files, dup_loop-Dupped}
use fp_sisop20_b.Proc.Alloc.Child.{ready_child_lem, abort_fork_lem}
use fp_sisop20_b.Proc.Alloc.Birth.{none_run, undone_run, born_run, born_lem}
use fp_sisop20_b.Proc.Alloc.Offspring.{
  Child, child-Child, Kept, Undone, Born, Forked, embryo_child, embryo_child_lem, allocated_lem,
  set_pgdir-IsOrdered, inherit-home, inherit-priority, inherit_rest-home, inherit_rest-priority,
}

module _ (queue : Slot → List Ptr) (page pgdir : ℕ) (s : State) (f : IsFree s.sync)
    (st : (s.procs s.current).state ≡ running) (p : Ptr) (rest : List Ptr) (s1 : State)
    (w : Allocated queue page s p rest s1) where
  free1 : IsFree s1.sync
  free1 = subst IsFree (sym w.after.sync) (dropped-IsFree s.sync f)

  ne : p ≢ 0
  ne z = omega (arith, w.is_next.in_table)

  -- The process that forks is not the one that was free.
  apart : s1.current ≢ p
  apart e =
      let same : s.current ≡ p = sym w.after.current ∙ e in
      let is : (s.procs s.current).state ≡ unused =
        subst (λ r. (s.procs r).state ≡ unused) (sym same) w.is_next.is_unused in
      cc

  parent1 : s1.procs s1.current ≡ s.procs s.current
  parent1 = w.after.others s1.current apart ∙ ap s.procs w.after.current

  apart' : s.current ≢ p
  apart' e = apart (w.after.current ∙ e)

  balanced1 : s1.sync.cpu.ncli ≡ s.sync.cpu.ncli
  balanced1 = ap {A = Sync} {B = ℕ} (λ y. y.cpu.ncli) w.after.sync

  undone : pgdir ≡ 0 → (s' : State) × Undone queue page pgdir s p s'
  undone z =
      let t0 = edited s1.table p (set_pgdir 0) in
      let self0 : t0.procs p ≡ set_pgdir 0 (fresh s.ticks (numbered_embryo s page (s.procs p))) =
        edited_self s1.table p (set_pgdir 0) ∙ ap (set_pgdir 0) w.after.self in
      let e = allocated_lem page s (s.procs p) in
      let (t, run, v, trace) =
        abort_fork_lem (stacked queue p Slot.free Slot.embryo) t0 p
          (set_pgdir-IsOrdered _ s1.table p w.ordered) w.is_next.in_table
          (ap {A = Proc} {B = ProcState} (λ q. q.state) self0 ∙ e.0) in
      (
        record s1 { table = t },
        record {
          no_memory = z;
          run =
              subst (λ d. fork page d s ≡ ok minus_one (record s1 { table = t })) (sym z)
                (undone_run page s s1 p t w.run ne run);
          ordered = subst (λ k. IsOrdered k t) (restored queue p rest w.is_next.is_first) v.ordered;
          others = λ r ne'.
              v.same r ne' ∙ edited_ne s1.table p (set_pgdir 0) r ne' ∙ w.after.others r ne';
          kept = record {
            current = w.after.current;
            self =
                v.same s.current apart'
                ∙ edited_ne s1.table p (set_pgdir 0) s.current apart'
                ∙ w.after.others s.current apart';
            balanced = balanced1;
          };
          free_again =
              ap {A = Proc} {B = ProcState} (λ q. q.state) v.self ∙ set_state-state unused _;
          trace =
              trace
              ∙ ap₂ (λ k es. kfree k ∷ es) (ap {A = Proc} {B = ℕ} (λ q. q.kstack) self0 ∙ e.1)
                  (edited-trace s1.table p (set_pgdir 0) ∙ w.after.trace);
          unlocked = free1;
        },
      )

  -- The tables after the first writes, and after the loop and the rest.
  t1 : Table
  t1 = edited s1.table p (inherit pgdir s1.current (s1.procs s1.current))

  t1_self :
      t1.procs p
      ≡ inherit pgdir s.current
          (s.procs s.current)
          (fresh s.ticks (numbered_embryo s page (s.procs p)))
  unfolding t1
  t1_self =
      edited_self s1.table p (inherit pgdir s1.current (s1.procs s1.current))
      ∙ ap₂ (λ c q. inherit pgdir c q (s1.procs p)) w.after.current parent1
      ∙ ap (inherit pgdir s.current (s.procs s.current)) w.after.self

  t1-IsOrdered : IsOrdered (stacked queue p Slot.free Slot.embryo) t1
  unfolding t1
  t1-IsOrdered =
      edited-IsOrdered _ s1.table p _
        (inherit-home pgdir s1.current (s1.procs s1.current) (s1.procs p))
        (inherit-priority pgdir s1.current (s1.procs s1.current) (s1.procs p) (w.ordered.bounded p))
        w.ordered

  t1_ne : (r : Ptr) → r ≢ p → t1.procs r ≡ s1.procs r
  unfolding t1
  t1_ne r ne' = edited_ne s1.table p _ r ne'

  t1-trace : t1.trace ≡ s.trace
  unfolding t1
  t1-trace = edited-trace s1.table p _ ∙ w.after.trace

  with_child : pgdir ≢ 0 → (s' : State) × Born queue page pgdir s p rest s'
  unfolding t1
  with_child ne' =
      let h = w.is_next.in_table in
      let (t2, run2, v) =
        dup_loop-Dupped (stacked queue p Slot.free Slot.embryo) nofile 0 s1.current p t1
          t1-IsOrdered apart in
      let par1 : t1.procs s1.current ≡ s.procs s.current = t1_ne s1.current apart ∙ parent1 in
      let par2 : t2.procs s1.current ≡ s.procs s.current = v.others s1.current apart ∙ par1 in
      let t2' = record t2 { trace = idup ((t2.procs s1.current).cwd) ∷ t2.trace } in
      let g = inherit_rest (t2.procs s1.current) in
      let t3 = edited t2' p g in
      let self3 : t3.procs p ≡ embryo_child page pgdir s (s.procs p) =
        edited_self t2' p g
        ∙ ap₂ inherit_rest par2 (
            v.self
            ∙ ap₂ {A = Proc} {B = Proc} {C = Proc}
                (λ par q. with_files (shared nofile 0 par.ofile q.ofile) q) par1 t1_self) in
      let e = embryo_child_lem page pgdir s (s.procs p) in
      let inv3 : IsOrdered (stacked queue p Slot.free Slot.embryo) t3 =
        edited-IsOrdered _ t2' p g (inherit_rest-home (t2.procs s1.current) (t2.procs p))
          (inherit_rest-priority (t2.procs s1.current) (t2.procs p) (v.ordered.bounded p))
          v.ordered in
      let (t4, run4, inv4, self4, same4, trace4) =
        ready_child_lem (stacked queue p Slot.free Slot.embryo) t3 p 0 inv3 h
          (ap {A = Proc} {B = ProcState} (λ q. q.state) self3 ∙ e.0)
          (ap {A = Proc} {B = ℕ} (λ q. q.priority) self3 ∙ e.1) in
      (
        record s1 { table = t4; sync = dropped s1.sync },
        record {
          a_page = w.a_page;
          a_directory = ne';
          is_next = w.is_next;
          run =
              subst
                (λ n. fork page pgdir s ≡ ok n (record s1 { table = t4; sync = dropped s1.sync }))
                (ap {A = Proc} {B = ℕ} (λ q. q.pid) self3 ∙ e.2)
                (born_run page pgdir s s1 p t2 t4 w.run ne ne' free1 run2 run4);
          ordered = subst (λ k. IsOrdered k t4) (born_lem queue p rest w.is_next.is_first) inv4;
          kept = record {
            current = w.after.current;
            self =
                same4 s.current apart'
                ∙ edited_ne t2' p g s.current apart'
                ∙ v.others s.current apart'
                ∙ t1_ne s.current apart'
                ∙ w.after.others s.current apart';
            balanced = balanced1;
          };
          new =
              subst (Child page pgdir s (s.procs p)) (sym (self4 ∙ ap (set_state runnable) self3))
                (child-Child page pgdir s (s.procs p));
          others = λ r ne''.
              same4 r ne''
              ∙ edited_ne t2' p g r ne''
              ∙ v.others r ne''
              ∙ t1_ne r ne''
              ∙ w.after.others r ne'';
          trace =
              trace4
              ∙ edited-trace t2' p g
              ∙ ap₂ {A = Proc} {B = List Event} {C = List Event} (λ par es. idup par.cwd ∷ es) par2
                  (v.trace
                    ∙ ap₂ {A = Proc} {B = List Event} {C = List Event}
                        (λ par es. dups nofile 0 par.ofile es) par1 t1-trace);
          unlocked = dropped-IsFree s1.sync free1;
        },
      )

no_page-Kept :
    (queue : Slot → List Ptr) (page : ℕ) (s : State) (p : Ptr) (rest : List Ptr) (s' : State)
    → (s.procs s.current).state ≡ running
    → NoStack queue page s p rest s'
    → Kept s s'
no_page-Kept queue page s p rest s' st w = record {
  current = w.after.current;
  self =
      w.after.others s.current
        (λ e. let is = subst (λ r. (s.procs r).state ≡ unused) (sym e) w.is_next.is_unused in cc);
  balanced = ap {A = Sync} {B = ℕ} (λ y. y.cpu.ncli) w.after.sync;
}

-- fork() by a running process, on a table in order with the lock free, returns -1 where there is no
-- free process, no page for the kernel stack or no memory for the copy: the lists are then as before,
-- and in the last case the page is given back. Otherwise it returns the next pid, and the first
-- process of the free list is the child, runnable behind the others of priority 0: it has a full
-- budget, the parent's size, trap frame with eax 0, directory, name and owner, and a new reference to
-- each open file of the parent; only its `killed` flag is what stood there before. No other process
-- changes, and the lock is free again.
pub fork_lem :
    (queue : Slot → List Ptr) (page pgdir : ℕ) (s : State)
    → IsOrdered queue s.table
    → IsFree s.sync
    → (s.procs s.current).state ≡ running
    → Forked queue page pgdir s
fork_lem queue page pgdir s inv f st = elim (allocproc_lem queue page s inv f) [
  | inl w ↦ inl (w.empty, none_run page pgdir s _ w.run)
  | inr (inl (p, rest, s', w)) ↦ inr (
      inl (
        s',
        w.no_page,
        none_run page pgdir s s' w.run,
        w.ordered,
        subst IsFree (sym w.after.sync) (dropped-IsFree s.sync f),
        no_page-Kept queue page s p rest s' st w,
      ))
  | inr (inr (p, rest, s1, w)) ↦ elim (Bool-cases (pgdir == 0)) [
    | inl none ↦
        let (s', u) = undone queue page pgdir s f st p rest s1 w (==→eq pgdir 0 none) in
        inr (inr (inl (p, s', u)))
    | inr some_ ↦
        let (s', b) = with_child queue page pgdir s f st p rest s1 w (==→ne pgdir 0 some_) in
        inr (inr (inr (p, rest, s', b)))
  ]
]
