-- ===== src/Proc/Sched/Yield.antt =====
-- yield(): the running process goes behind the last one of its ready list.
use fp_sisop20_b.Prelude.{
  ℕ, ◌+◌, ◌-◌, ◌%◌, ◌^◌, ◌<◌, true, false, ◌==◌, ltb, if◌then◌else◌, Bool-cases, inl, inr, ◌≤◌, ◌≡◌,
  ◌≢◌, refl, ap, ◌∙◌, List, arith,
}
use fp_sisop20_b.Run.{ok}
use fp_sisop20_b.StateList.{
  Ptr, Slot, ready, Lists, success, max_priority, add_to_state_list_end, remove_from_state_list,
}
use fp_sisop20_b.Proc.{runnable, running, Proc, Table, charge, sub32, nonpositive, put, set_state}
use fp_sisop20_b.Proc.Invariant.{InTable, home, IsOrdered}
use fp_sisop20_b.Proc.Steps.{put_self, put-put_ne}
use fp_sisop20_b.Proc.Requeue.{
  assert_state-ok, set_state-state, set_state-priority, requeued, requeue_step,
}
use fp_sisop20_b.Proc.Sched.{yield_table}

pub charge-state : (ticks : ℕ) (q : Proc) → (charge ticks q).state ≡ q.state
unfolding charge
charge-state ticks q = ground arith

pub charge-le-max :
    (ticks : ℕ) (q : Proc) → q.priority ≤ max_priority → (charge ticks q).priority ≤ max_priority
unfolding charge
charge-le-max ticks q h = ground arith

-- A process that has used `used` ticks. With budget left it pays; otherwise it goes down one priority,
-- but not below the last, with a budget of 120.
abbrev pub charged : (used : ℕ) → Proc → Proc
charged used q = record q {
  priority =
      if ltb used q.budget then q.priority else if q.priority == 2 then 2 else q.priority + 1;
  budget = if ltb used q.budget then q.budget - used else 120;
}

pub elapsed :
    (i used ticks : ℕ)
    → i < 2 ^ 32
    → used < 2 ^ 31
    → (i + used) % 2 ^ 32 ≡ ticks
    → sub32 ticks i ≡ used
elapsed i used ticks h h' e = omega (arith, e)

pub charge_lem :
    (ticks used : ℕ) (q : Proc)
    → q.cpu_ticks_in < 2 ^ 32
    → used < 2 ^ 31
    → (q.cpu_ticks_in + used) % 2 ^ 32 ≡ ticks
    → q.budget < 2 ^ 31
    → q.priority ≤ max_priority
    → charge ticks q ≡ charged used q
unfolding charge
charge_lem ticks used q h small e few top =
    let is = elapsed q.cpu_ticks_in used ticks h small e in
    elim (Bool-cases (ltb used q.budget)) [
      | inl pays ↦
          let left : sub32 q.budget used ≡ q.budget - used = ground arith in
          let no : nonpositive (q.budget - used) ≡ false = ground arith in
          rw (is, left, no, pays) refl
      | inr spent ↦
          let yes : nonpositive (sub32 q.budget used) ≡ true = ground arith in
          let down : (if ltb q.priority max_priority then q.priority + 1 else q.priority)
              ≡ (if q.priority == 2 then 2 else q.priority + 1) =
            ground arith in
          rw (is, yes, spent, down) refl
    ]

-- The process as yield() leaves it.
abbrev pub yielded : ℕ → Proc → Proc
yielded ticks q = charge ticks (set_state runnable q)

module _ (queue : Slot → List Ptr) (t : Table) (p : Ptr) (ticks : ℕ) where
  -- The table after yield().
  after_yield : Lists → Table
  after_yield l = record t {
    procs =
        put (put t.procs p (set_state runnable (t.procs p))) p
          (charge ticks (put t.procs p (set_state runnable (t.procs p)) p));
    lists = l;
  }

  after_yield_self : (l : Lists) → (after_yield l).procs p ≡ yielded ticks (t.procs p)
  unfolding after_yield
  after_yield_self l =
      put_self _ p _ ∙ ap (charge ticks) (put_self t.procs p (set_state runnable (t.procs p)))

  yield_run :
      (l l' : Lists)
      → InTable p
      → (t.procs p).state ≡ running
      → remove_from_state_list Slot.running p t.lists ≡ ok success l
      → add_to_state_list_end (ready ((yielded ticks (t.procs p)).priority)) p l ≡ ok success l'
      → yield_table ticks p t ≡ ok tt (after_yield l')
  unfolding yield_table after_yield
  yield_run l l' h st run run' =
      rw (assert_state-ok p running t h st, run, put_self, put_self, run') refl

  yielded-home :
      (l : Lists)
      → (t.procs p).state ≡ running
      → home ((after_yield l).procs p) ≡ ready ((yielded ticks (t.procs p)).priority)
  yielded-home l st = rw (after_yield_self l, charge-state, set_state-state) refl

  -- A running process that yields goes behind the last one of the ready list of its new priority,
  -- no other process changes, and the table stays in order.
  pub yield_table_lem :
      IsOrdered queue t
      → InTable p
      → (t.procs p).state ≡ running
      → let q = yielded ticks (t.procs p) in
        (t' : Table) × (yield_table ticks p t ≡ ok tt t')
        × IsOrdered (requeued queue p Slot.running (ready (q.priority))) t'
        × (t'.procs p ≡ q)
        × ((r : Ptr) → r ≢ p → t'.procs r ≡ t.procs r)
        × (t'.trace ≡ t.trace)
  unfolding after_yield
  yield_table_lem inv h st =
      let same = put-put_ne t.procs p (set_state runnable (t.procs p)) _ in
      let (l, l', run, run', inv') =
        requeue_step queue t.procs (after_yield t.lists).procs t.lists p Slot.running
          (ready ((yielded ticks (t.procs p)).priority)) inv h (rw st) (yielded-home t.lists st)
          same
          (rw (after_yield_self t.lists)
            (charge-le-max ticks _ (rw set_state-priority (inv.bounded p)))) in
      (after_yield l', yield_run l l' h st run run', inv', after_yield_self l', same, refl)
