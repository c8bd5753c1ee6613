-- ===== src/Proc/Wait.antt =====
-- wait of proc.c: one round of its loop, from the lock to the return or to the sleep.
pub mod Reap
pub mod Search
pub mod Look
use fp_sisop20_b.Prelude.{
  ℕ, ◌+◌, Bool, true, false, not, ◌||◌, List, [], ◌∷◌, ◌++◌, ◌==◌, if◌then◌else◌, update,
}
use fp_sisop20_b.Run.{Run, ok, Cmd, pure, ◌>>=◌, ◌>>◌, get, modify}
use fp_sisop20_b.Spinlock.{acquire, release}
use fp_sisop20_b.StateList.{Ptr, Slot, add_to_state_list_head, remove_from_state_list}
use fp_sisop20_b.Proc.{
  ProcState, Proc, kfree, freevm, Table, State, lift_run, on_lists, on_table, on_sync, load, edit,
  set_state, emit, or_print, assert_state, find_in, ready_slots,
}
use fp_sisop20_b.Proc.Sleep.{sleep_locked, sleep_return}
use fp_sisop20_b.Proc.Alloc.{minus_one, set_kstack}

-- A round returns a value, or stops asleep at the switch with the saved `intena`.
pub data Waited : Type 0 where
  returned : ℕ → Waited
  asleep : Bool → Waited

-- `p->pid = 0; p->parent = 0; p->name[0] = 0; p->killed = 0;`
unfoldable pub wipe : Proc → Proc
wipe q = record q { pid = 0; parent = 0; name = update q.name 0 0; killed = 0 }

-- A zombie child is given back to the free list.
unfoldable pub reap : Ptr → Cmd Table ℕ
reap p = do
  q ← load p
  emit (kfree (q.kstack))
  edit p (set_kstack 0)
  emit (freevm (q.pgdir))
  assert_state p ProcState.zombie
  removed ← on_lists (remove_from_state_list Slot.zombie p)
  or_print "Failed to remove ZOMBIE process from list (wait).\n" removed
  edit p (set_state ProcState.unused)
  added ← on_lists (add_to_state_list_head Slot.free p)
  or_print "Failed to add UNUSED process to list (wait).\n" added
  edit p wipe
  pure q.pid

-- The lists on which wait() looks for a child that is no zombie.
abbrev pub kid_slots : List Slot
kid_slots = ready_slots ++ Slot.running ∷ Slot.sleep ∷ []

-- The body of `for(;;)`.
unfoldable pub wait_round : Cmd State Waited
wait_round = do
  me ← get (λ s. s.current)
  p ← on_table (find_in (Slot.zombie ∷ []) (λ q. q.parent == me))
  if not (p == 0) then (do pid ← on_table (reap p); on_sync release; pure (returned pid)) else (do
    kid ← on_table (find_in kid_slots (λ q. q.parent == me))
    q ← on_table (load me)
    if kid == 0 || not (q.killed == 0)
        then (do on_sync release; pure (returned minus_one))
        else (do intena ← sleep_locked me; pure (asleep intena)))

unfoldable pub wait : Cmd State Waited
wait = do on_sync acquire; wait_round

-- The next round, when the process has woken.
unfoldable pub wait_again : Bool → Cmd State Waited
wait_again intena = do sleep_return intena false; wait_round
