-- ===== src/Tests.antt =====
-- The theorems at concrete inputs.
pub mod Log
pub mod Pipe
pub mod Kalloc
pub mod Grep
pub mod Exit
pub mod File
pub mod Syscall
pub mod Sysfile
pub mod Kernel
use fp_sisop20_b.Prelude.{◌%◌, ◌-◌, ◌==◌, if◌then◌else◌, ◌≡◌, ◌≢◌, refl, ◌⊎◌, true, false, arith}
use fp_sisop20_b.Run.{ok, panics, ◌>>◌}
use fp_sisop20_b.CString.{Bytes, safestrcpy, Copied, safestrcpy_lem}
use fp_sisop20_b.CString.Block.{memmove, block_at, memmove_lem}
use fp_sisop20_b.CString.Text.{memset, filled, memset_lem}
use fp_sisop20_b.CString.Compare.{memcmp, Agree, Differ, memcmp_lem}
use fp_sisop20_b.Spinlock.{Sync, acquire, release}
use fp_sisop20_b.Spinlock.Critical.{IsFree, taken, section_lem}
use fp_sisop20_b.StateList.{Ptr, Slot, ready, success, failure}
use fp_sisop20_b.Proc.{Table, State}
use fp_sisop20_b.Proc.Invariant.{IsOrdered}
use fp_sisop20_b.Proc.Requeue.{requeued}
use fp_sisop20_b.Proc.Sched.{yield_cpu, add_time, promote_all, scheduler}
use fp_sisop20_b.Proc.Sched.PromoteAll.{promoted_queue, promoted}
use fp_sisop20_b.Proc.Sched.Every.{promote_all_lem}
use fp_sisop20_b.Proc.Sched.Round.{queue_now}
use fp_sisop20_b.Proc.Sched.Loop.{Idle, Switched, scheduler_lem}
use fp_sisop20_b.Proc.Sleep.Doze.{Asleep, sleep_on_lem, sleep_locked_lem}
use fp_sisop20_b.Proc.Sched.Switch.{paid, yield_cpu_lem}
use fp_sisop20_b.Proc.Sleep.{wakeup, kill, setpriority, sleep_on, sleep_locked}
use fp_sisop20_b.Proc.Sleep.Guarded.{unlocked, wakeup_lem, kill_lem, setpriority_lem}
use fp_sisop20_b.Proc.Homes.{is_active}
use fp_sisop20_b.Proc.Sleep.Reset.{Reset}
use fp_sisop20_b.Proc.Sleep.Strike.{Nobody, Struck}
use fp_sisop20_b.Proc.Sleep.Wakeup.{woken_queue, scanned}
use fp_sisop20_b.Proc.Alloc.Result.{Outcome, allocproc_lem}
use fp_sisop20_b.Proc.Alloc.Fork.{fork_lem}
use fp_sisop20_b.Proc.Alloc.Offspring.{Forked}
use fp_sisop20_b.Proc.Wait.Look.{Round, wait_round_lem}
use fp_sisop20_b.Examples.{table, queue, table-IsOrdered, state, free_sync}
use fp_sisop20_b.Proc.Invariant.{InTable}

yield_cpu_example :
    let q = paid 7 (table.procs 1) in
    (s' : State) × (yield_cpu state ≡ ok true s')
    × IsOrdered (requeued queue 1 Slot.running (ready (q.priority))) s'.table
    × (s'.procs 1 ≡ q)
    × ((r : Ptr) → r ≢ 1 → s'.procs r ≡ table.procs r)
    × (s'.sync ≡ taken (state.sync))
yield_cpu_example =
    yield_cpu_lem queue state 7 table-IsOrdered (omega arith) refl refl refl (omega arith)
      (omega arith) refl (omega arith)

promote_all_example :
    (t' : Table) × (promote_all table ≡ ok tt t')
    × IsOrdered (promoted_queue queue) t'
    × ((q : Ptr) → InTable q → t'.procs q ≡ promoted (table.procs q))
    × (t'.trace ≡ table.trace)
promote_all_example = promote_all_lem queue table table-IsOrdered

abbrev late : State
late = record state { ticks = 270 }

scheduler_example :
    ((s' : State) × (scheduler late ≡ ok 0 s') × Idle (queue_now queue late) late s')
    ⊎ ((p : Ptr) × (s' : State) × (scheduler late ≡ ok p s')
        × Switched (queue_now queue late) late p s')
scheduler_example = scheduler_lem queue late table-IsOrdered refl refl

sleep_on_example :
    (s' : State) × (sleep_on 9 state ≡ ok true s')
    × Asleep queue state 9 s'
    × (s'.sync ≡ taken (state.sync))
sleep_on_example = sleep_on_lem queue state 9 table-IsOrdered (omega arith) refl refl refl

abbrev held : State
held = record state { sync = taken free_sync }

sleep_locked_example :
    (s' : State) × (sleep_locked 9 held ≡ ok true s')
    × Asleep queue held 9 s'
    × (s'.sync ≡ held.sync)
sleep_locked_example =
    sleep_locked_lem queue held 9 free_sync table-IsOrdered (omega arith) refl refl refl

pub free_sync-IsFree : IsFree free_sync
free_sync-IsFree = record { unlocked = refl; nested = λ h. absurd (omega arith) }

allocproc_example : Outcome queue 4096 state
allocproc_example = allocproc_lem queue 4096 state table-IsOrdered free_sync-IsFree

fork_example : Forked queue 4096 8192 state
fork_example = fork_lem queue 4096 8192 state table-IsOrdered free_sync-IsFree refl

abbrev greeting : Bytes
greeting i = if i == 0 then 104 else if i == 1 then 105 else 0

safestrcpy_example : Copied 0 (16 - 1) (λ i. 1) greeting (safestrcpy (λ i. 1) greeting 16)
safestrcpy_example = safestrcpy_lem (λ i. 1) greeting 16 (omega arith)

wait_round_example : Round queue held free_sync
wait_round_example =
    wait_round_lem queue held free_sync table-IsOrdered (omega arith) refl refl free_sync-IsFree
      refl

wakeup_example :
    (t' : Table) × (wakeup 7 state ≡ ok tt (unlocked state t'))
    × IsOrdered (woken_queue queue table 7) t'
    × ((q : Ptr) → InTable q → t'.procs q ≡ scanned 7 (table.procs q))
    × (t'.trace ≡ table.trace)
wakeup_example = wakeup_lem queue state 7 table-IsOrdered free_sync-IsFree

kill_example :
    ((kill 2 state ≡ ok failure (unlocked state table)) × Nobody table 2)
    ⊎ ((p : Ptr) × (t' : Table) × (kill 2 state ≡ ok success (unlocked state t'))
        × Struck queue table 2 p t')
kill_example = kill_lem queue state 2 table-IsOrdered free_sync-IsFree

setpriority_example :
    ((setpriority 4 0 state ≡ ok failure (unlocked state table))
      × ((q : Ptr)
          → InTable q
          → (table.procs q).pid ≡ 4
          → is_active ((table.procs q).state) ≡ false))
    ⊎ ((p : Ptr) × (t' : Table) × (setpriority 4 0 state ≡ ok success (unlocked state t'))
        × Reset queue table 4 0 p t')
setpriority_example = setpriority_lem queue state 4 0 table-IsOrdered (omega arith) free_sync-IsFree

abbrev counting : Bytes
counting i = i % 256

memcmp_example :
    ((memcmp 1 257 8 counting ≡ 0) × Agree 1 257 8 counting)
    ⊎ Differ 1 257 8 counting (memcmp 1 257 8 counting)
memcmp_example = memcmp_lem 1 257 8 counting (λ i. omega arith)

memmove_example : memmove 12 10 8 counting 15 ≡ block_at 12 10 8 counting 15
memmove_example = memmove_lem 12 10 8 15 counting

section_example :
    (y' : Sync) × ((acquire >> release) free_sync ≡ ok tt y')
    × IsFree y'
    × (y'.cpu.interrupts ≡ true)
    × (y'.cpu.ncli ≡ 0)
section_example = section_lem free_sync free_sync-IsFree

memset_example : memset 8 513 4 counting 9 ≡ filled 8 (513 % 256) 4 counting 9
memset_example = memset_lem 8 513 4 9 counting
