-- ===== src/Proc/Sleep/Doze.antt =====
-- sleep(): the running process goes behind the last one of the sleep list.
use fp_sisop20_b.Prelude.{ℕ, ◌≡◌, ◌≢◌, refl, sym, ap, ◌∙◌, false, List, ==_ne, arith}
use fp_sisop20_b.Run.{ok}
use fp_sisop20_b.Spinlock.{Sync}
use fp_sisop20_b.Spinlock.Critical.{taken, acquire-taken}
use fp_sisop20_b.StateList.{
  Ptr, Slot, Lists, success, add_to_state_list_end, remove_from_state_list,
}
use fp_sisop20_b.Proc.{sleeping, running, Proc, Table, State, charge, put, set_state}
use fp_sisop20_b.Proc.Invariant.{InTable, slot_of, home, IsOrdered}
use fp_sisop20_b.Proc.Steps.{Inv-put, put_self, put_ne, put-put_ne}
use fp_sisop20_b.Proc.Requeue.{
  assert_state-ok, set_state-state, set_state-priority, requeued, requeue_step,
}
use fp_sisop20_b.Proc.Sched.{add_time}
use fp_sisop20_b.Proc.Sched.Yield.{charge-state, charge-le-max}
use fp_sisop20_b.Proc.Sched.Switch.{switched, sched-switched, add_time-Inv}
use fp_sisop20_b.Proc.Sleep.{sleep_table, sleep_locked, sleep_on}

abbrev pub with_chan : ℕ → Proc → Proc
with_chan chan q = record q { chan = chan }

-- The process as sleep() leaves it.
abbrev pub slept : (chan ticks : ℕ) → Proc → Proc
slept chan ticks q = charge ticks (set_state sleeping (with_chan chan q))

module _ (queue : Slot → List Ptr) (t : Table) (p : Ptr) (chan ticks : ℕ) where
  -- The processes before the list operations, and after them.
  procs1 : Ptr → Proc
  procs1 = put t.procs p (with_chan chan (t.procs p))

  procs3 : Ptr → Proc
  procs3 =
      let procs2 = put procs1 p (set_state sleeping (procs1 p)) in
      put procs2 p (charge ticks (procs2 p))

  procs1_self : procs1 p ≡ with_chan chan (t.procs p)
  unfolding procs1
  procs1_self = put_self t.procs p _

  procs3_self : procs3 p ≡ slept chan ticks (t.procs p)
  unfolding procs3
  procs3_self =
      put_self _ p _
      ∙ ap (charge ticks) (put_self procs1 p (set_state sleeping (procs1 p)))
      ∙ ap (λ q. charge ticks (set_state sleeping q)) procs1_self

  procs3_ne : (r : Ptr) → r ≢ p → procs3 r ≡ t.procs r
  unfolding procs1 procs3
  procs3_ne r ne = put-put_ne procs1 p _ _ r ne ∙ put_ne t.procs p _ r ne

  sleep_run :
      (l l' : Lists)
      → InTable p
      → (t.procs p).state ≡ running
      → remove_from_state_list Slot.running p t.lists ≡ ok success l
      → add_to_state_list_end Slot.sleep p l ≡ ok success l'
      → sleep_table chan ticks p t ≡ ok tt (record t { procs = procs3; lists = l' })
  unfolding sleep_table procs1 procs3
  sleep_run l l' h st run run' =
      rw
        (
          assert_state-ok p running (record t { procs = procs1 }) h
              (ap (λ q. q.state) procs1_self ∙ st),
          run,
          run',
        )
        refl

  procs3-home : home (procs3 p) ≡ Slot.sleep
  procs3-home = rw (procs3_self, charge-state, set_state-state) refl

  -- A running process that sleeps goes behind the last one of the sleep list with its channel
  -- noted and its time charged, no other process changes, and the table stays in order.
  pub sleep_table_lem :
      IsOrdered queue t
      → InTable p
      → (t.procs p).state ≡ running
      → (t' : Table) × (sleep_table chan ticks p t ≡ ok tt t')
        × IsOrdered (requeued queue p Slot.running Slot.sleep) t'
        × (t'.procs p ≡ slept chan ticks (t.procs p))
        × ((r : Ptr) → r ≢ p → t'.procs r ≡ t.procs r)
        × (t'.trace ≡ t.trace)
  unfolding procs1
  sleep_table_lem inv h st =
      let inv1 =
        Inv-put queue 0 t.procs t.lists p (with_chan chan (t.procs p)) inv refl (inv.bounded p) in
      let at : home (procs1 p) ≡ Slot.running =
        ap home procs1_self ∙ ap (λ s. slot_of s ((t.procs p).priority)) st in
      let (l, l', run, run', inv') =
        requeue_step queue procs1 procs3 t.lists p Slot.running Slot.sleep inv1 h at procs3-home
          (λ r ne. procs3_ne r ne ∙ sym (put_ne t.procs p _ r ne))
          (rw procs3_self (charge-le-max ticks _ (rw set_state-priority (inv.bounded p)))) in
      (
        record t { procs = procs3; lists = l' },
        sleep_run l l' h st run run',
        inv',
        procs3_self,
        procs3_ne,
        refl,
      )

slept-state : (chan ticks : ℕ) (q : Proc) → (slept chan ticks q).state ≢ running
slept-state chan ticks q = rw (charge-state, set_state-state) (λ e. cc)

-- What holds at the switch.
pub record Asleep (queue : Slot → List Ptr) (s : State) (chan : ℕ) (s' : State) : Type 0 where
  pub ordered : IsOrdered (requeued queue s.current Slot.running Slot.sleep) s'.table
  pub sleeper : s'.procs s.current ≡ add_time s.ticks (slept chan s.ticks (s.procs s.current))
  pub others : (r : Ptr) → r ≢ s.current → s'.procs r ≡ s.procs r

-- `sleep(chan, &ptable.lock)` called with the lock held and no other pushcli open: the running
-- process is asleep on `chan` at the end of the sleep list, with its time charged, no other process
-- changes, the table stays in order, and the lock is still held at the switch.
pub sleep_locked_lem :
    (queue : Slot → List Ptr) (s : State) (chan : ℕ) (y : Sync)
    → IsOrdered queue s.table
    → InTable s.current
    → (s.procs s.current).state ≡ running
    → s.sync ≡ taken y
    → y.cpu.ncli ≡ 0
    → (s' : State) × (sleep_locked chan s ≡ ok y.cpu.interrupts s')
      × Asleep queue s chan s'
      × (s'.sync ≡ s.sync)
unfolding sleep_locked
sleep_locked_lem queue s chan y inv h st held n =
    let (t', run, inv', at_p, same, _) =
      sleep_table_lem queue s.table s.current chan s.ticks inv h st in
    let mid : State = record s { table = t' } in
    let other : (t'.procs s.current).state ≢ running =
      rw at_p (slept-state chan s.ticks (s.procs s.current)) in
    (
      switched mid,
      rw (==_ne {a = s.current} {b = 0} (λ z. omega arith), run)
          (sched-switched mid y held n other),
      record {
        ordered = add_time-Inv _ mid inv';
        sleeper = put_self t'.procs s.current _ ∙ ap (add_time s.ticks) at_p;
        others = λ r ne. put_ne t'.procs s.current _ r ne ∙ same r ne;
      },
      refl,
    )

-- `sleep(chan, 0)` called with the lock free does the same, and holds the lock at the switch.
pub sleep_on_lem :
    (queue : Slot → List Ptr) (s : State) (chan : ℕ)
    → IsOrdered queue s.table
    → InTable s.current
    → (s.procs s.current).state ≡ running
    → s.sync.lock.locked ≡ false
    → s.sync.cpu.ncli ≡ 0
    → (s' : State) × (sleep_on chan s ≡ ok s.sync.cpu.interrupts s')
      × Asleep queue s chan s'
      × (s'.sync ≡ taken s.sync)
unfolding sleep_on
sleep_on_lem queue s chan inv h st free n =
    let (t', run, inv', at_p, same, _) =
      sleep_table_lem queue s.table s.current chan s.ticks inv h st in
    let mid : State = record s { table = t'; sync = taken s.sync } in
    let other : (t'.procs s.current).state ≢ running =
      rw at_p (slept-state chan s.ticks (s.procs s.current)) in
    (
      switched mid,
      rw (==_ne {a = s.current} {b = 0} (λ z. omega arith), acquire-taken s.sync free, run)
          (sched-switched mid s.sync refl n other),
      record {
        ordered = add_time-Inv _ mid inv';
        sleeper = put_self t'.procs s.current _ ∙ ap (add_time s.ticks) at_p;
        others = λ r ne. put_ne t'.procs s.current _ r ne ∙ same r ne;
      },
      refl,
    )
