-- ===== src/Proc/Sleep/Guarded.antt =====
-- wakeup, kill and setpriority as the rest of the kernel calls them: under the lock of the table.
use fp_sisop20_b.Prelude.{ℕ, ◌≤◌, ◌≡◌, refl, ◌⊎◌, inl, inr, false, List}
use fp_sisop20_b.Run.{ok}
use fp_sisop20_b.Spinlock.Critical.{IsFree, dropped, acquire-taken, release-dropped}
use fp_sisop20_b.StateList.{Ptr, Slot, Status, success, failure, max_priority}
use fp_sisop20_b.Proc.{Table, State}
use fp_sisop20_b.Proc.Invariant.{InTable, IsOrdered}
use fp_sisop20_b.Proc.Homes.{is_active}
use fp_sisop20_b.Proc.Sleep.{wakeup1, wakeup, kill_table, kill, setpriority_table, setpriority}
use fp_sisop20_b.Proc.Sleep.Kill.{kill_table_lem}
use fp_sisop20_b.Proc.Sleep.Strike.{Nobody, Struck}
use fp_sisop20_b.Proc.Sleep.SetPriority.{setpriority_table_lem}
use fp_sisop20_b.Proc.Sleep.Reset.{Reset}
use fp_sisop20_b.Proc.Sleep.Wakeup.{woken_queue, scanned, wakeup1_lem}

-- The state when the lock has been given back.
abbrev pub unlocked : State → Table → State
unlocked s t = record s { table = t; sync = dropped s.sync }

wakeup_run :
    (s : State) (chan : ℕ) (t : Table)
    → IsFree s.sync
    → wakeup1 chan s.table ≡ ok tt t
    → wakeup chan s ≡ ok tt (unlocked s t)
unfolding wakeup
wakeup_run s chan t f run = rw (acquire-taken s.sync f.unlocked, run, release-dropped s.sync f) refl

kill_run :
    (s : State) (pid : ℕ) (r : Status) (t : Table)
    → IsFree s.sync
    → kill_table pid s.table ≡ ok r t
    → kill pid s ≡ ok r (unlocked s t)
unfolding kill
kill_run s pid r t f run = rw (acquire-taken s.sync f.unlocked, run, release-dropped s.sync f) refl

setpriority_run :
    (s : State) (pid n : ℕ) (r : Status) (t : Table)
    → IsFree s.sync
    → setpriority_table pid n s.table ≡ ok r t
    → setpriority pid n s ≡ ok r (unlocked s t)
unfolding setpriority
setpriority_run s pid n r t f run =
    rw (acquire-taken s.sync f.unlocked, run, release-dropped s.sync f) refl

-- wakeup(), called with the lock free on a table in order, makes exactly the processes that sleep on
-- the channel runnable, each at the end of the ready list of its priority and in the order in which
-- they slept; no other process changes, the table stays in order, and the lock is free again.
pub wakeup_lem :
    (queue : Slot → List Ptr) (s : State) (chan : ℕ)
    → IsOrdered queue s.table
    → IsFree s.sync
    → (t' : Table) × (wakeup chan s ≡ ok tt (unlocked s t'))
      × IsOrdered (woken_queue queue s.table chan) t'
      × ((q : Ptr) → InTable q → t'.procs q ≡ scanned chan (s.procs q))
      × (t'.trace ≡ s.trace)
wakeup_lem queue s chan inv f =
    let (t', run, inv', is, quiet) = wakeup1_lem queue s.table chan inv in
    (t', wakeup_run s chan t' f run, inv', is, quiet)

-- kill(), called with the lock free on a table in order, either returns -1, where no process of the
-- table has the pid, and changes nothing; or returns 0 and marks one process with the pid as killed,
-- which goes to the end of its ready list if it slept and otherwise stays where it is. No other
-- process changes, the table stays in order, and the lock is free again.
pub kill_lem :
    (queue : Slot → List Ptr) (s : State) (pid : ℕ)
    → IsOrdered queue s.table
    → IsFree s.sync
    → ((kill pid s ≡ ok failure (unlocked s s.table)) × Nobody s.table pid)
      ⊎ ((p : Ptr) × (t' : Table) × (kill pid s ≡ ok success (unlocked s t'))
          × Struck queue s.table pid p t')
kill_lem queue s pid inv f = elim (kill_table_lem queue s.table pid inv) [
  | inl (run, none) ↦ inl (kill_run s pid failure s.table f run, none)
  | inr (p, t', run, w) ↦ inr (p, t', kill_run s pid success t' f run, w)
]

-- setpriority() with a priority in range, called with the lock free on a table in order, either
-- returns -1, where no active process has the pid, and changes nothing; or returns 0 and gives one
-- such process the priority and a budget of 120, with its other fields as before, and a runnable one
-- goes to the end of its new ready list; all this also where it has the priority already. No other
-- process changes, the table stays in order, and the lock is free again.
pub setpriority_lem :
    (queue : Slot → List Ptr) (s : State) (pid n : ℕ)
    → IsOrdered queue s.table
    → n ≤ max_priority
    → IsFree s.sync
    → ((setpriority pid n s ≡ ok failure (unlocked s s.table))
        × ((q : Ptr) → InTable q → (s.procs q).pid ≡ pid → is_active ((s.procs q).state) ≡ false))
      ⊎ ((p : Ptr) × (t' : Table) × (setpriority pid n s ≡ ok success (unlocked s t'))
          × Reset queue s.table pid n p t')
setpriority_lem queue s pid n inv small f =
    elim (setpriority_table_lem queue s.table pid n inv small) [
      | inl (run, none) ↦ inl (setpriority_run s pid n failure s.table f run, none)
      | inr (p, t', run, w) ↦ inr (p, t', setpriority_run s pid n success t' f run, w)
    ]
