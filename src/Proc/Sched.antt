-- ===== src/Proc/Sched.antt =====
-- sched, yield, promoteAll and scheduler of proc.c. A process that calls sched() stops at swtch():
-- the model of such a function ends there, and another definition says how it goes on when the
-- scheduler has chosen it again. So does the scheduler's round, at the switch to a process.
pub mod Yield
pub mod Switch
pub mod Promote
pub mod PromoteAll
pub mod Every
pub mod Pick
pub mod Round
pub mod Loop
use fp_sisop20_b.Prelude.{
  ℕ, zero, suc, ◌+◌, ◌-◌, ◌%◌, ◌^◌, Bool, true, false, not, List, [], ◌∷◌, ltb, ◌==◌, if◌then◌else◌,
  update,
}
use fp_sisop20_b.Run.{
  Run, ok, panics, spins, faults, exhausted, Cmd, pure, panic, panic_if, ◌>>=◌, ◌>>◌, get, modify,
}
use fp_sisop20_b.Spinlock.{holding, acquire, release}
use fp_sisop20_b.StateList.{
  Ptr, Slot, ready, nproc, load_head, add_to_state_list_end, remove_from_state_list, remove_head,
}
use fp_sisop20_b.Proc.{
  ProcState, runnable, Proc, Event, switchuvm, swtch, switchkvm, hlt, Table, State, code, lift_run,
  on_lists, on_table, on_sync, load, edit, set_state, emit, or_print, assert_state, sub32, charge,
  ready_slots, time_to_promote,
}

-- The elapsed CPU time that sched() adds.
abbrev pub add_time : ℕ → Proc → Proc
add_time ticks q = record q {
  cpu_ticks_total = (q.cpu_ticks_total + sub32 ticks q.cpu_ticks_in) % 2 ^ 32;
}

-- Up to swtch(); the result is the saved `intena`.
unfoldable pub sched : Cmd State Bool
unfolding holding
sched = do
  held ← on_sync holding
  panic_if (not held) "sched ptable.lock"
  ncli ← get (λ s. s.sync.cpu.ncli)
  panic_if (not (ncli == 1)) "sched locks"
  p ← get (λ s. s.current)
  q ← on_table (load p)
  panic_if (code (q.state) == code ProcState.running) "sched running"
  interrupts ← get (λ s. s.sync.cpu.interrupts)
  panic_if interrupts "sched interruptible"
  intena ← get (λ s. s.sync.cpu.intena)
  ticks ← get (λ s. s.ticks)
  on_table (edit p (add_time ticks))
  on_table (emit (swtch p))
  pure intena

-- Behind swtch(): `cpu->intena = intena;`
unfoldable pub sched_return : Bool → Cmd State (Unit {0})
sched_return intena =
    modify
      (λ s. record s { sync = record (s.sync) { cpu = record (s.sync.cpu) { intena = intena } } })

-- What yield() does to the table.
unfoldable pub yield_table : ℕ → Ptr → Cmd Table (Unit {0})
yield_table ticks p = do
  assert_state p ProcState.running
  removed ← on_lists (remove_from_state_list Slot.running p)
  or_print "Failed to remove RUNNING proc to list (yeild)." removed
  edit p (set_state ProcState.runnable)
  edit p (charge ticks)
  q ← load p
  added ← on_lists (add_to_state_list_end (ready (q.priority)) p)
  or_print "Failed to add RUNNABLE proc to list (yeild)." added

unfoldable pub yield_cpu : Cmd State Bool
yield_cpu = do
  on_sync acquire
  p ← get (λ s. s.current)
  ticks ← get (λ s. s.ticks)
  on_table (yield_table ticks p)
  sched

unfoldable pub yield_return : Bool → Cmd State (Unit {0})
yield_return intena = do sched_return intena; on_sync release

-- `if (p->priority > 0) --(p->priority);`
unfoldable pub promote : Proc → Proc
promote q = if ltb 0 q.priority then record q { priority = q.priority - 1 } else q

-- promoteAll on one ready list. `current` runs one process ahead of the one that moves.
unfoldable pub promote_ready : ℕ → Ptr → Cmd Table (Unit {0})
promote_ready zero current = λ _. exhausted
promote_ready (suc n) current = if current == 0 then pure tt else do
  let p = current
  after ← get (λ t. t.lists.next p)
  assert_state p runnable
  q ← load p
  removed ← on_lists (remove_from_state_list (ready (q.priority)) p)
  or_print "promoteAll: Could not remove from ready list.\n" removed
  edit p promote
  q' ← load p
  added ← on_lists (add_to_state_list_end (ready (q'.priority)) p)
  or_print "promoteAll: Could not add to ready list.\n" added
  promote_ready n after

-- promoteAll on the sleeping and on the running processes, which stay where they are.
unfoldable pub promote_in_place : ℕ → Ptr → Cmd Table (Unit {0})
promote_in_place zero p = λ _. exhausted
promote_in_place (suc n) p =
    if p == 0
    then pure tt
    else do edit p promote; after ← get (λ t. t.lists.next p); promote_in_place n after

unfoldable pub promote_all : Cmd Table (Unit {0})
promote_all = do
  one ← on_lists (load_head (ready 1))
  promote_ready (nproc + 1) one
  two ← on_lists (load_head (ready 2))
  promote_ready (nproc + 1) two
  asleep ← on_lists (load_head Slot.sleep)
  promote_in_place (nproc + 1) asleep
  busy ← on_lists (load_head Slot.running)
  promote_in_place (nproc + 1) busy

-- The first process of the first ready list that has one, taken off its list; null if none has.
unfoldable pub pick : List Slot → Cmd Table Ptr
pick [] = pure 0
pick (k ∷ ks) = do
  p ← on_lists (load_head k)
  if p == 0 then pick ks else (do
    assert_state p runnable
    q ← load p
    p' ← on_lists (remove_head (ready (q.priority)))
    panic_if (p' == 0) "Scheduler: removeHead failed."
    pure p')

-- From `proc = p` to swtch().
unfoldable pub dispatch : Ptr → Cmd State (Unit {0})
dispatch p = do
  modify (λ s. record s { current = p })
  on_table (emit (switchuvm p))
  on_table (edit p (set_state ProcState.running))
  added ← on_table (on_lists (add_to_state_list_end Slot.running p))
  on_table (or_print "Failed to add RUNNING proc to list (scheduler)." added)
  ticks ← get (λ s. s.ticks)
  on_table (edit p (λ q. record q { cpu_ticks_in = ticks }))
  on_table (emit (swtch p))

abbrev pub sti : State → State
sti s = record s { sync = record (s.sync) { cpu = record (s.sync.cpu) { interrupts = true } } }

-- `if ((ptable.promoteAtTime) == ticks) { promoteAll(); ... }`
unfoldable pub promote_on_time : Cmd State (Unit {0})
promote_on_time = do
  at ← get (λ s. s.promote_at)
  ticks ← get (λ s. s.ticks)
  if at == ticks
      then (do
        on_table promote_all
        modify (λ s. record s { promote_at = (ticks + time_to_promote) % 2 ^ 32 }))
      else pure tt

-- One round of the scheduler's loop. The result is the process switched to, or null after an idle
-- round.
unfoldable pub scheduler : Cmd State Ptr
scheduler = do
  modify sti
  on_sync acquire
  promote_on_time
  p ← on_table (pick ready_slots)
  if p == 0
      then (do on_sync release; modify sti; on_table (emit hlt); pure 0)
      else (do dispatch p; pure p)

-- The rest of the round when the process has switched back.
unfoldable pub scheduler_return : Cmd State (Unit {0})
scheduler_return = do
  on_table (emit switchkvm)
  modify (λ s. record s { current = 0 })
  on_sync release
