-- ===== src/Proc/Sleep.antt =====
-- sleep, wakeup1, wakeup, kill and setpriority of proc.c.
pub mod Doze
pub mod Guarded
pub mod Strike
pub mod Kill
pub mod Reset
pub mod SetPriority
pub mod Rouse
pub mod Wakeup
use fp_sisop20_b.Prelude.{
  ℕ, zero, suc, ◌+◌, Bool, true, false, not, List, [], ◌∷◌, ◌++◌, ◌==◌, if◌then◌else◌, update,
}
use fp_sisop20_b.Run.{
  Run, ok, panics, spins, faults, exhausted, Cmd, pure, panic, panic_if, ◌>>=◌, ◌>>◌, get, modify,
}
use fp_sisop20_b.Spinlock.{acquire, release}
use fp_sisop20_b.StateList.{
  Ptr, Slot, ready, Status, success, failure, nproc, load_head, add_to_state_list_end,
  remove_from_state_list,
}
use fp_sisop20_b.Proc.{
  ProcState, runnable, sleeping, Proc, Table, State, lift_run, on_lists, on_table, on_sync, load,
  edit, set_state, or_print, assert_state, charge, find_in, ready_slots, budget_full,
}
use fp_sisop20_b.Proc.Sched.{sched, sched_return}

-- What sleep() does to the table.
unfoldable pub sleep_table : (chan ticks : ℕ) → Ptr → Cmd Table (Unit {0})
sleep_table chan ticks p = do
  edit p (λ q. record q { chan = chan })
  assert_state p ProcState.running
  removed ← on_lists (remove_from_state_list Slot.running p)
  or_print "Could not remove RUNNING proc from list (sleep()).\n" removed
  edit p (set_state sleeping)
  edit p (charge ticks)
  added ← on_lists (add_to_state_list_end Slot.sleep p)
  or_print "Could not add SLEEPING proc to list (sleep()).\n" added

-- `sleep(chan, &ptable.lock)`, whose caller holds the lock, up to swtch().
unfoldable pub sleep_locked : ℕ → Cmd State Bool
sleep_locked chan = do
  p ← get (λ s. s.current)
  panic_if (p == 0) "sleep"
  ticks ← get (λ s. s.ticks)
  on_table (sleep_table chan ticks p)
  sched

-- `sleep(chan, 0)`, which takes the lock itself.
unfoldable pub sleep_on : ℕ → Cmd State Bool
sleep_on chan = do
  p ← get (λ s. s.current)
  panic_if (p == 0) "sleep"
  on_sync acquire
  ticks ← get (λ s. s.ticks)
  on_table (sleep_table chan ticks p)
  sched

-- Behind swtch(): `proc->chan = 0;`, and the lock goes if sleep() took it.
unfoldable pub sleep_return : Bool → (took : Bool) → Cmd State (Unit {0})
sleep_return intena took = do
  sched_return intena
  p ← get (λ s. s.current)
  on_table (edit p (λ q. record q { chan = 0 }))
  if took then on_sync release else pure tt

-- The loop of wakeup1. `current` runs one process ahead of the one that is woken.
unfoldable pub wakeup_loop : ℕ → (chan : ℕ) → Ptr → Cmd Table (Unit {0})
wakeup_loop zero chan current = λ _. exhausted
wakeup_loop (suc n) chan current = if current == 0 then pure tt else do
  let p = current
  after ← get (λ t. t.lists.next p)
  assert_state p sleeping
  q ← load p
  if q.chan == chan
      then (do
        removed ← on_lists (remove_from_state_list Slot.sleep p)
        or_print "Failed to remove SLEEPING proc to list (wakeup1).\n" removed
        edit p (set_state runnable)
        added ← on_lists (add_to_state_list_end (ready (q.priority)) p)
        or_print "Failed to add RUNNABLE proc to list (wakeup1).\n" added)
      else pure tt
  wakeup_loop n chan after

unfoldable pub wakeup1 : ℕ → Cmd Table (Unit {0})
wakeup1 chan = do
  head ← on_lists (load_head Slot.sleep)
  if head == 0 then pure tt else wakeup_loop (nproc + 1) chan head

unfoldable pub wakeup : ℕ → Cmd State (Unit {0})
wakeup chan = do on_sync acquire; on_table (wakeup1 chan); on_sync release

-- The `killed` write of a process that stays on its list.
abbrev pub mark_killed : Ptr → Cmd Table (Unit {0})
mark_killed p = edit p (λ q. record q { killed = 1 })

-- kill() between `acquire` and `release`.
unfoldable pub kill_table : ℕ → Cmd Table Status
kill_table pid = do
  p ← find_in (Slot.sleep ∷ []) (λ q. q.pid == pid)
  if not (p == 0)
      then (do
        mark_killed p
        assert_state p sleeping
        removed ← on_lists (remove_from_state_list Slot.sleep p)
        or_print "Could not remove SLEEPING proc from list (kill).\n" removed
        edit p (set_state runnable)
        q ← load p
        added ← on_lists (add_to_state_list_end (ready (q.priority)) p)
        or_print "Could not add RUNNABLE proc to list (kill).\n" added
        pure success)
      else (do
        p' ←
            find_in (ready_slots ++ Slot.running ∷ Slot.free ∷ Slot.zombie ∷ Slot.embryo ∷ [])
              (λ q. q.pid == pid)
        if p' == 0 then pure failure else (do mark_killed p'; pure success))

unfoldable pub kill : ℕ → Cmd State Status
kill pid = do on_sync acquire; r ← on_table (kill_table pid); on_sync release; pure r

-- `p->priority = priority`
unfoldable pub set_priority : ℕ → Proc → Proc
set_priority priority q = record q { priority = priority }

-- `p->budget = BUDGET`
unfoldable pub reset_budget : Proc → Proc
reset_budget q = record q { budget = budget_full }

-- setpriority() between `acquire` and `release`.
unfoldable pub setpriority_table : (pid priority : ℕ) → Cmd Table Status
setpriority_table pid priority = do
  p ← find_in ready_slots (λ q. q.pid == pid)
  if not (p == 0)
      then (do
        old ← load p
        removed ← on_lists (remove_from_state_list (ready (old.priority)) p)
        or_print "setpriority: remove from ready list[%d] failed.\n" removed
        edit p (set_priority priority)
        new ← load p
        added ← on_lists (add_to_state_list_end (ready (new.priority)) p)
        or_print "setpriority: add to ready list[%d] failed.\n" added
        edit p reset_budget
        pure success)
      else (do
        p' ← find_in (Slot.running ∷ Slot.sleep ∷ []) (λ q. q.pid == pid)
        if p' == 0
            then pure failure
            else (do edit p' (set_priority priority); edit p' reset_budget; pure success))

unfoldable pub setpriority : (pid priority : ℕ) → Cmd State Status
setpriority pid priority = do
  on_sync acquire
  r ← on_table (setpriority_table pid priority)
  on_sync release
  pure r
