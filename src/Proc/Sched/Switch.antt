-- ===== src/Proc/Sched/Switch.antt =====
-- sched(), and yield() as a whole: from a free lock to the switch, with the lock held.
use fp_sisop20_b.Prelude.{
  ℕ, ◌%◌, ◌^◌, ◌<◌, ◌≤◌, subst, ◌+◌, ◌≡◌, ◌≢◌, refl, ap, ◌∙◌, false, List, ◌∷◌, ◌==◌, ==_refl,
}
use fp_sisop20_b.Run.{ok}
use fp_sisop20_b.Spinlock.{Sync}
use fp_sisop20_b.Spinlock.Critical.{taken, acquire-taken}
use fp_sisop20_b.StateList.{Ptr, Slot, ready, max_priority}
use fp_sisop20_b.Proc.{
  Proc, set_state, ProcState, unused, embryo, sleeping, runnable, running, zombie, State, swtch,
  code, put,
}
use fp_sisop20_b.Proc.Invariant.{InTable, IsOrdered}
use fp_sisop20_b.Proc.Steps.{Inv-put, put_self, put_ne}
use fp_sisop20_b.Proc.Requeue.{requeued, set_state-state}
use fp_sisop20_b.Proc.Sched.{sched, add_time, yield_cpu}
use fp_sisop20_b.Proc.Sched.Yield.{
  charged, charge_lem, elapsed, yielded, yield_table_lem, charge-state,
}

code_ne_running : (st : ProcState) → st ≢ running → (code st == code running) ≡ false
code_ne_running unused h = refl
code_ne_running embryo h = refl
code_ne_running sleeping h = refl
code_ne_running runnable h = refl
code_ne_running running h = absurd (h refl)
code_ne_running zombie h = refl

-- The state at the switch.
abbrev pub switched : State → State
switched s = record s {
  table = record (s.table) {
    procs = put s.procs s.current (add_time s.ticks (s.procs s.current));
    trace = swtch s.current ∷ s.trace;
  };
}

-- With only the process lock held, sched() passes its four tests.
pub sched-switched :
    (s : State) (y : Sync)
    → s.sync ≡ taken y
    → y.cpu.ncli ≡ 0
    → (s.procs s.current).state ≢ running
    → sched s ≡ ok y.cpu.interrupts (switched s)
unfolding sched
sched-switched s y e n ne = rw (e, n, ==_refl (y.cpu.id + 1), code_ne_running _ ne) refl

-- Adding CPU time to a process keeps the table in order.
pub add_time-Inv :
    (queue : Slot → List Ptr) (s : State)
    → IsOrdered queue s.table
    → IsOrdered queue (switched s).table
add_time-Inv queue s inv =
    Inv-put queue 0 s.procs s.lists s.current (add_time s.ticks (s.procs s.current)) inv refl
      (inv.bounded s.current)

-- yield() on any counters, with the process as charge and add_time leave it.
pub yield_cpu_any :
    (queue : Slot → List Ptr) (s : State)
    → IsOrdered queue s.table
    → InTable s.current
    → (s.procs s.current).state ≡ running
    → s.sync.lock.locked ≡ false
    → s.sync.cpu.ncli ≡ 0
    → let q = yielded s.ticks (s.procs s.current) in
      (s' : State) × (yield_cpu s ≡ ok s.sync.cpu.interrupts s')
      × IsOrdered (requeued queue s.current Slot.running (ready (q.priority))) s'.table
      × (s'.procs s.current ≡ add_time s.ticks q)
      × ((r : Ptr) → r ≢ s.current → s'.procs r ≡ s.procs r)
      × (s'.sync ≡ taken s.sync)
unfolding yield_cpu
yield_cpu_any queue s inv h st free n =
    let (t', run, inv', at_p, same, _) = yield_table_lem queue s.table s.current s.ticks inv h st in
    let mid : State = record s { table = t'; sync = taken s.sync } in
    let other : (t'.procs s.current).state ≢ running =
      rw (at_p, charge-state, set_state-state) (λ e. cc) in
    (
      switched mid,
      rw (acquire-taken s.sync free, run) (sched-switched mid s.sync refl n other),
      add_time-Inv _ mid inv',
      put_self t'.procs s.current _ ∙ ap (add_time s.ticks) at_p,
      (λ r ne. put_ne t'.procs s.current _ r ne ∙ same r ne),
      refl,
    )

-- The process that yield() leaves at the switch: charged, runnable, and with its CPU time counted.
abbrev pub paid : (used : ℕ) → Proc → Proc
paid used q = record (charged used q) {
  state = runnable;
  cpu_ticks_total = (q.cpu_ticks_total + used) % 2 ^ 32;
}

paid_lem :
    (ticks used : ℕ) (q : Proc)
    → q.cpu_ticks_in < 2 ^ 32
    → used < 2 ^ 31
    → (q.cpu_ticks_in + used) % 2 ^ 32 ≡ ticks
    → q.budget < 2 ^ 31
    → q.priority ≤ max_priority
    → add_time ticks (yielded ticks q) ≡ paid used q
unfolding set_state
paid_lem ticks used q h small e few top =
    ap (add_time ticks) (charge_lem ticks used (set_state runnable q) h small e few top)
    ∙ ap
        (λ n. record (charged used q) {
          state = runnable;
          cpu_ticks_total = (q.cpu_ticks_total + n) % 2 ^ 32;
        })
        (elapsed q.cpu_ticks_in used ticks h small e)

-- yield() from user code, by a process that has used `used` ticks since it got the CPU: the lock is free,
-- pushcli not nested, the clock may have wrapped around, and the ticks and the budget are below 2 ^ 31.
-- Where the ticks are fewer than the budget, they are taken off it and the priority stays; otherwise the
-- budget is 120 again and the process goes down one priority, but not below the last. It ends up runnable
-- behind the last one of the ready list of its priority, with the ticks added to its CPU time; no other
-- process changes, the table is in order, and the lock is held across the switch.
pub yield_cpu_lem :
    (queue : Slot → List Ptr) (s : State) (used : ℕ)
    → IsOrdered queue s.table
    → InTable s.current
    → (s.procs s.current).state ≡ running
    → s.sync.lock.locked ≡ false
    → s.sync.cpu.ncli ≡ 0
    → (s.procs s.current).cpu_ticks_in < 2 ^ 32
    → used < 2 ^ 31
    → ((s.procs s.current).cpu_ticks_in + used) % 2 ^ 32 ≡ s.ticks
    → (s.procs s.current).budget < 2 ^ 31
    → let q = paid used (s.procs s.current) in
      (s' : State) × (yield_cpu s ≡ ok s.sync.cpu.interrupts s')
      × IsOrdered (requeued queue s.current Slot.running (ready (q.priority))) s'.table
      × (s'.procs s.current ≡ q)
      × ((r : Ptr) → r ≢ s.current → s'.procs r ≡ s.procs r)
      × (s'.sync ≡ taken s.sync)
yield_cpu_lem queue s used inv h st free n clock small e few =
    let (s', run, inv', self, same, sync) = yield_cpu_any queue s inv h st free n in
    let is = paid_lem s.ticks used (s.procs s.current) clock small e few (inv.bounded s.current) in
    (
      s',
      run,
      subst
          (λ (q : Proc).
            IsOrdered (requeued queue s.current Slot.running (ready q.priority)) s'.table)
          is inv',
      self ∙ is,
      same,
      sync,
    )
