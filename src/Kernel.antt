-- ===== src/Kernel.antt =====
-- One CPU from call to call: what a process asks of proc.c, and what the scheduler does in between.
pub mod Order
pub mod Calls
pub mod Switches
pub mod Waits
pub mod Runs
pub mod Progress
pub mod Boot
use fp_sisop20_b.Prelude.{ℕ, ◌+◌, ◌%◌, ◌^◌, ◌≤◌, ◌≡◌, ◌≢◌, Bool, true}
use fp_sisop20_b.Run.{ok, Cmd, ◌>>=◌, ◌>>◌}
use fp_sisop20_b.Spinlock.{release}
use fp_sisop20_b.StateList.{Status, max_priority}
use fp_sisop20_b.Proc.{State, on_sync}
use fp_sisop20_b.Proc.Sched.{yield_cpu, yield_return, scheduler, scheduler_return}
use fp_sisop20_b.Proc.Sleep.{sleep_on, sleep_return, wakeup, kill, setpriority}
use fp_sisop20_b.Proc.Alloc.{fork}
use fp_sisop20_b.Proc.Exit.{Outside, exit}
use fp_sisop20_b.Proc.Exit.Close.{IsOutside}
use fp_sisop20_b.Proc.Wait.{returned, asleep, wait, wait_again}

-- Where the CPU is: in a process without the lock; at swtch() out of a process; in the scheduler; back
-- from swtch() in a process. At the switches the lock is held.
pub data Phase : Type 0 where
  process leaving idle arriving : Phase

-- The timer interrupt's atom_inc() of `ticks`; its wakeup() is the step `wakes`.
abbrev pub tick : State → State
tick s = record s { ticks = (s.ticks + 1) % 2 ^ 32 }

-- The part of forkret() that concerns proc.c: the new process gives the lock back.
abbrev pub forkret_release : Cmd State (Unit {0})
forkret_release = on_sync release

pub data Step (s s' : State) : Phase → Phase → Type 0 where
  -- A process calls, and comes back.
  wakes : (chan : ℕ) → wakeup chan s ≡ ok tt s' → Step s s' process process
  kills : (pid : ℕ) (r : Status) → kill pid s ≡ ok r s' → Step s s' process process
  sets :
      (pid n : ℕ) (r : Status)
      → n ≤ max_priority
      → setpriority pid n s ≡ ok r s'
      → Step s s' process process
  forks : (page pgdir pid : ℕ) → fork page pgdir s ≡ ok pid s' → Step s s' process process
  reaps : (pid : ℕ) → wait s ≡ ok (returned pid) s' → Step s s' process process
  -- A process gives the CPU away.
  yields : (intena : Bool) → yield_cpu s ≡ ok intena s' → Step s s' process leaving
  sleeps : (chan : ℕ) (intena : Bool) → sleep_on chan s ≡ ok intena s' → Step s s' process leaving
  waits : (intena : Bool) → wait s ≡ ok (asleep intena) s' → Step s s' process leaving
  exits :
      (o : Outside) (intena : Bool)
      → IsOutside o
      → exit o s ≡ ok intena s'
      → Step s s' process leaving
  -- The scheduler.
  returns : scheduler_return s ≡ ok tt s' → Step s s' leaving idle
  rests : scheduler s ≡ ok 0 s' → Step s s' idle idle
  runs : (p : ℕ) → p ≢ 0 → scheduler s ≡ ok p s' → Step s s' idle arriving
  -- A process comes back from swtch().
  starts : forkret_release s ≡ ok tt s' → Step s s' arriving process
  resumes : (intena : Bool) → yield_return intena s ≡ ok tt s' → Step s s' arriving process
  wakes_up : (intena : Bool) → sleep_return intena true s ≡ ok tt s' → Step s s' arriving process
  reaps_then :
      (intena : Bool) (pid : ℕ)
      → wait_again intena s ≡ ok (returned pid) s'
      → Step s s' arriving process
  waits_on : (intena i : Bool) → wait_again intena s ≡ ok (asleep i) s' → Step s s' arriving leaving

-- Any number of steps, and timer interrupts between them.
pub data Reach (s : State) (p : Phase) : State → Phase → Type 0 where
  here : Reach s p s p
  next : {t u : State} {q r : Phase} → Reach s p t q → Step t u q r → Reach s p u r
  ticked : {t : State} {q : Phase} → Reach s p t q → Reach s p (tick t) q
