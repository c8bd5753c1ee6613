-- ===== src/Kernel/Runs.antt =====
-- Any sequence of calls, switches and timer interrupts.
use fp_sisop20_b.Proc.{State}
use fp_sisop20_b.Proc.Wait.{returned, asleep}
use fp_sisop20_b.Kernel.{
  Phase, process, leaving, idle, arriving, tick, Step, wakes, kills, sets, forks, reaps, yields,
  sleeps, waits, exits, returns, rests, runs, starts, resumes, wakes_up, reaps_then, waits_on,
  Reach, here, next, ticked,
}
use fp_sisop20_b.Kernel.Order.{InOrder, Current, Good}
use fp_sisop20_b.Kernel.Calls.{wakeup-Good, kill-Good, setpriority-Good, fork-Good}
use fp_sisop20_b.Kernel.Switches.{
  yield-Good, sleep-Good, exit-Good, return-Good, rest-Good, run-Good, start-Good, resume-Good,
  wake_up-Good,
}
use fp_sisop20_b.Kernel.Waits.{wait-Good, wait_again-Good}

Step-Good : {s s' : State} {p p' : Phase} → Step s s' p p' → Good p s → Good p' s'
Step-Good {s} {s'} (wakes chan e) g = wakeup-Good s s' chan g e
Step-Good {s} {s'} (kills pid r e) g = kill-Good s s' pid r g e
Step-Good {s} {s'} (sets pid n r small e) g = setpriority-Good s s' pid n r small g e
Step-Good {s} {s'} (forks page pgdir pid e) g = fork-Good s s' page pgdir pid g e
Step-Good {s} {s'} (reaps pid e) g = wait-Good s s' (returned pid) g e
Step-Good {s} {s'} (yields i e) g = yield-Good s s' i g e
Step-Good {s} {s'} (sleeps chan i e) g = sleep-Good s s' chan i g e
Step-Good {s} {s'} (waits i e) g = wait-Good s s' (asleep i) g e
Step-Good {s} {s'} (exits o i law e) g = exit-Good o s s' i law g e
Step-Good {s} {s'} (returns e) g = return-Good s s' g e
Step-Good {s} {s'} (rests e) g = rest-Good s s' g e
Step-Good {s} {s'} (runs p ne e) g = run-Good s s' p ne g e
Step-Good {s} {s'} (starts e) g = start-Good s s' g e
Step-Good {s} {s'} (resumes i e) g = resume-Good s s' i g e
Step-Good {s} {s'} (wakes_up i e) g = wake_up-Good s s' i g e
Step-Good {s} {s'} (reaps_then i pid e) g = wait_again-Good s s' i (returned pid) g e
Step-Good {s} {s'} (waits_on i j e) g = wait_again-Good s s' i (asleep j) g e

same_Current : (s : State) → Current s → Current (tick s)
same_Current s c = record { in_table = c.in_table; is_running = c.is_running }

same_InOrder : (s : State) → InOrder s → InOrder (tick s)
same_InOrder s o = record { queue = o.queue; ordered = o.ordered }

tick-Good : (s : State) (p : Phase) → Good p s → Good p (tick s)
tick-Good s process (o, f, c) = (same_InOrder s o, f, same_Current s c)
tick-Good s leaving (o, h) = (same_InOrder s o, h)
tick-Good s idle (o, f) = (same_InOrder s o, f)
tick-Good s arriving (o, h, c) = (same_InOrder s o, h, same_Current s c)

-- From a state in order, every sequence of calls, switches and timer interrupts leads to a state in order:
-- each process is on exactly the list of its state, the lock is held at the switches and free elsewhere
-- with no pushcli open, and in a process the variable `proc` names a running process of the table.
-- The calls that exit() makes of other parts keep this, too.
pub reach_lem :
    {s : State} {p : Phase} {t : State} {q : Phase} → Good p s → Reach s p t q → Good q t
reach_lem g here = g
reach_lem g (next r step) = Step-Good step (reach_lem g r)
reach_lem {q} g (ticked r) = tick-Good _ q (reach_lem g r)
