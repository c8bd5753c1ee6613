-- ===== src/Proc/Exit.antt =====
-- exit of proc.c, up to the switch from which it does not return. What it calls of other parts is behind
-- the interface Outside.
pub mod Adopt
pub mod Zombies
pub mod Handover
pub mod Leave
pub mod Close
pub mod Given
pub mod Whole
use fp_sisop20_b.Prelude.{ℕ, zero, suc, ◌+◌, Bool, List, [], ◌∷◌, ◌++◌, ◌==◌, if◌then◌else◌}
use fp_sisop20_b.Run.{exhausted, Cmd, pure, panic_if, ◌>>=◌, ◌>>◌, get}
use fp_sisop20_b.Spinlock.{acquire}
use fp_sisop20_b.StateList.{
  Ptr, Slot, nproc, load_head, add_to_state_list_head, remove_from_state_list,
}
use fp_sisop20_b.Proc.{
  ProcState, Proc, fileclose, iput, begin_op, end_op, Table, State, on_lists, on_table, on_sync,
  load, edit, set_state, emit, or_print, assert_state, ready_slots,
}
use fp_sisop20_b.Proc.Sched.{sched}
use fp_sisop20_b.Proc.Sleep.{wakeup1}
use fp_sisop20_b.Proc.Alloc.{nofile, set_file}

-- What exit() calls of file.c, log.c and fs.c. These wake other processes and may put the caller to sleep,
-- so by the time a call is back, other processes have run.
pub record Outside : Type 0 where
  pub fileclose : ℕ → Cmd State (Unit {0})
  pub begin_op : Cmd State (Unit {0})
  pub iput : ℕ → Cmd State (Unit {0})
  pub end_op : Cmd State (Unit {0})

-- The loop over the open files, with `n` of them to go.
unfoldable pub close_loop : Outside → (n fd : ℕ) → Ptr → Cmd State (Unit {0})
close_loop o zero fd p = pure tt
close_loop o (suc n) fd p = do
  q ← on_table (load p)
  if q.ofile fd == 0
      then pure tt
      else (do o.fileclose (q.ofile fd); on_table (edit p (set_file fd 0)))
  close_loop o n (fd + 1) p

-- `p->parent = parent`
unfoldable pub set_parent : Ptr → Proc → Proc
set_parent parent q = record q { parent = parent }

-- `proc->cwd = 0`
unfoldable pub drop_cwd : Proc → Proc
drop_cwd q = record q { cwd = 0 }

-- The zombie children of `me` go to `init`, which is woken for each of them.
unfoldable pub orphan_zombies : ℕ → (me init : Ptr) → Ptr → Cmd Table (Unit {0})
orphan_zombies zero me init current = λ _. exhausted
orphan_zombies (suc n) me init current = if current == 0 then pure tt else do
  let p = current
  after ← get (λ t. t.lists.next p)
  q ← load p
  if q.parent == me then (do edit p (set_parent init); wakeup1 init) else pure tt
  orphan_zombies n me init after

-- The other children go to it without a wakeup.
unfoldable pub orphan_loop : ℕ → (me init : Ptr) → Ptr → Cmd Table (Unit {0})
orphan_loop zero me init p = λ _. exhausted
orphan_loop (suc n) me init p = if p == 0 then pure tt else do
  q ← load p
  if q.parent == me then edit p (set_parent init) else pure tt
  after ← get (λ t. t.lists.next p)
  orphan_loop n me init after

unfoldable pub orphan_lists : List Slot → (me init : Ptr) → Cmd Table (Unit {0})
orphan_lists [] me init = pure tt
orphan_lists (k ∷ ks) me init = do
  h ← on_lists (load_head k)
  orphan_loop (nproc + 1) me init h
  orphan_lists ks me init

-- exit() between `acquire` and `sched`.
unfoldable pub exit_table : (me init : Ptr) → Cmd Table (Unit {0})
exit_table me init = do
  q ← load me
  wakeup1 (q.parent)
  z ← on_lists (load_head Slot.zombie)
  orphan_zombies (nproc + 1) me init z
  orphan_lists (Slot.running ∷ ready_slots ++ Slot.sleep ∷ Slot.embryo ∷ Slot.free ∷ []) me init
  assert_state me ProcState.running
  removed ← on_lists (remove_from_state_list Slot.running me)
  or_print "Failed to remove RUNNING proc from list (exit).\n" removed
  edit me (set_state ProcState.zombie)
  added ← on_lists (add_to_state_list_head Slot.zombie me)
  or_print "Failed to add ZOMBIE proc to list (exit).\n" added

unfoldable pub exit : Outside → Cmd State Bool
exit o = do
  me ← get (λ s. s.current)
  init ← get (λ s. s.initproc)
  panic_if (me == init) "init exiting"
  close_loop o nofile 0 me
  o.begin_op
  q ← on_table (load me)
  o.iput (q.cwd)
  o.end_op
  on_table (edit me drop_cwd)
  on_sync acquire
  init' ← get (λ s. s.initproc)
  on_table (exit_table me init')
  sched
