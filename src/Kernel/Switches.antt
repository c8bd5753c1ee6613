-- ===== src/Kernel/Switches.antt =====
-- The calls that give the CPU away, the scheduler, and the ways back.
use fp_sisop20_b.Prelude.{ℕ, ◌≡◌, ◌≢◌, refl, sym, ap, subst, ◌∙◌, inl, inr, Bool, true, ◌∷◌, arith}
use fp_sisop20_b.Run.{ok, one_state, one_value}
use fp_sisop20_b.Spinlock.{Sync, release}
use fp_sisop20_b.Spinlock.Critical.{taken}
use fp_sisop20_b.Proc.{running, Proc, State, switchkvm}
use fp_sisop20_b.Proc.Invariant.{InTable}
use fp_sisop20_b.Proc.Edits.{edited, edited_self, edited-IsOrdered}
use fp_sisop20_b.Proc.Requeue.{set_state-state}
use fp_sisop20_b.Proc.Sched.{
  yield_cpu, yield_return, sched_return, sti, scheduler, scheduler_return,
}
use fp_sisop20_b.Proc.Sched.Switch.{yield_cpu_any}
use fp_sisop20_b.Proc.Sched.Loop.{scheduler_lem}
use fp_sisop20_b.Proc.Sched.Round.{dispatched}
use fp_sisop20_b.Proc.Sleep.{sleep_on, sleep_return}
use fp_sisop20_b.Proc.Sleep.Doze.{sleep_on_lem}
use fp_sisop20_b.Proc.Exit.{Outside, exit}
use fp_sisop20_b.Proc.Exit.Close.{Runs, IsOutside}
use fp_sisop20_b.Proc.Exit.Whole.{exit_lem}
use fp_sisop20_b.Kernel.{process, leaving, idle, arriving, forkret_release}
use fp_sisop20_b.Kernel.Order.{
  Free, Held, InOrder, Current, Good, release-Held, with_intena, Held-with_intena,
}

Held-taken : (s : State) (y : Sync) → Free s.sync → y ≡ taken s.sync → Held y
Held-taken s y f e = record { before = s.sync; held = e; was_free = f }

pub yield-Good :
    (s s' : State) (i : Bool) → Good process s → yield_cpu s ≡ ok i s' → Good leaving s'
yield-Good s s' i (o, f, c) e =
    let (t, run, inv, self, same, sync) =
      yield_cpu_any o.queue s o.ordered c.in_table c.is_running f.unlocked f.balanced in
    subst (Good leaving) (one_state run e)
      (record { queue = _; ordered = inv }, Held-taken s t.sync f sync)

pub sleep-Good :
    (s s' : State) (chan : ℕ) (i : Bool)
    → Good process s
    → sleep_on chan s ≡ ok i s'
    → Good leaving s'
sleep-Good s s' chan i (o, f, c) e =
    let (t, run, w, sync) =
      sleep_on_lem o.queue s chan o.ordered c.in_table c.is_running f.unlocked f.balanced in
    subst (Good leaving) (one_state run e)
      (record { queue = _; ordered = w.ordered }, Held-taken s t.sync f sync)

-- A process in order runs.
pub Good-Runs : (s : State) → Good process s → Runs s
Good-Runs s (o, f, c) = record {
  queue = o.queue;
  ordered = o.ordered;
  in_table = c.in_table;
  is_running = c.is_running;
  unlocked = f.unlocked;
  balanced = f.balanced;
}

pub exit-Good :
    (o : Outside) (s s' : State) (i : Bool)
    → IsOutside o
    → Good process s
    → exit o s ≡ ok i s'
    → Good leaving s'
exit-Good o s s' i law g e = elim (exit_lem o s law (Good-Runs s g)) [
  | inl (is, run) ↦ let no_ = sym run ∙ e in cc
  | inr (ne, (m, queue, queue', t, w)) ↦
      let f : Free m.sync = record { unlocked = w.was_free.0; balanced = w.was_free.1 } in
      subst (Good leaving) (one_state w.run e)
        (record { queue = queue'; ordered = w.gone.ordered }, Held-taken m t.sync f w.gone.held)
]

-- The state after the switch back to the scheduler.
abbrev pub returned_to : State → Sync → State
returned_to s y = record s {
  table = record (s.table) { trace = switchkvm ∷ s.trace };
  current = 0;
  sync = y;
}

pub return_run :
    (s : State) (y : Sync) → release s.sync ≡ ok tt y → scheduler_return s ≡ ok tt (returned_to s y)
unfolding scheduler_return
return_run s y e = rw e refl

pub return-Good : (s s' : State) → Good leaving s → scheduler_return s ≡ ok tt s' → Good idle s'
return-Good s s' (o, h) e =
    let (y, run, f) = release-Held s.sync h in
    subst (Good idle) (one_state (return_run s y run) e)
      (record { queue = o.queue; ordered = o.ordered }, f)

pub rest-Good : (s s' : State) → Good idle s → scheduler s ≡ ok 0 s' → Good idle s'
rest-Good s s' (o, f) e = elim (scheduler_lem o.queue s o.ordered f.unlocked f.balanced) [
  | inl (t, run, w) ↦ subst (Good idle) (one_state run e) (
    record { queue = _; ordered = w.ordered },
    record { unlocked = w.unlocked; balanced = w.balanced ∙ f.balanced },
  )
  | inr (p, t, run, w) ↦
      let z = one_value run e in let h = w.in_table in absurd (omega (arith, z, h))
]

dispatched-state : (ticks : ℕ) (q : Proc) → (dispatched ticks q).state ≡ running
dispatched-state ticks q = set_state-state running q

pub run-Good :
    (s s' : State) (p : ℕ) → p ≢ 0 → Good idle s → scheduler s ≡ ok p s' → Good arriving s'
run-Good s s' p ne (o, f) e = elim (scheduler_lem o.queue s o.ordered f.unlocked f.balanced) [
  | inl (t, run, w) ↦ absurd (ne (sym (one_value run e)))
  | inr (q, t, run, w) ↦ subst (Good arriving) (one_state run e) (
    record { queue = _; ordered = w.ordered },
    record {
      before = (sti s).sync;
      held = w.locked;
      was_free = record { unlocked = f.unlocked; balanced = f.balanced };
    },
    record {
      in_table = subst InTable (sym w.current) w.in_table;
      is_running =
          subst (λ r. (t.procs r).state ≡ running) (sym w.current)
            (ap (λ (x : Proc). x.state) w.chosen ∙ dispatched-state s.ticks _);
    },
  )
]

-- The process goes on, with `y` for the lock and the CPU.
abbrev pub with_sync : State → Sync → State
with_sync s y = record s { sync = y }

pub start_run :
    (s : State) (y : Sync) → release s.sync ≡ ok tt y → forkret_release s ≡ ok tt (with_sync s y)
start_run s y e = rw e refl

pub Good-going :
    (s : State) (y : Sync) → InOrder s → Free y → Current s → Good process (with_sync s y)
Good-going s y o f c = (
  record { queue = o.queue; ordered = o.ordered },
  f,
  record { in_table = c.in_table; is_running = c.is_running },
)

pub start-Good : (s s' : State) → Good arriving s → forkret_release s ≡ ok tt s' → Good process s'
start-Good s s' (o, h, c) e =
    let (y, run, f) = release-Held s.sync h in
    subst (Good process) (one_state (start_run s y run) e) (Good-going s y o f c)

pub resume_run :
    (s : State) (i : Bool) (y : Sync)
    → release (with_intena i s.sync) ≡ ok tt y
    → yield_return i s ≡ ok tt (with_sync s y)
unfolding yield_return sched_return
resume_run s i y e = rw e refl

pub resume-Good :
    (s s' : State) (i : Bool) → Good arriving s → yield_return i s ≡ ok tt s' → Good process s'
resume-Good s s' i (o, h, c) e =
    let (y, run, f) = release-Held (with_intena i s.sync) (Held-with_intena i s.sync h) in
    subst (Good process) (one_state (resume_run s i y run) e) (Good-going s y o f c)

-- `proc->chan = 0`
abbrev pub off_channel : Proc → Proc
off_channel q = record q { chan = 0 }

-- A process that has slept, with the lock.
abbrev pub woken_up : State → Bool → State
woken_up s i = record s {
  table = edited s.table s.current off_channel;
  sync = with_intena i s.sync;
}

pub woken_up-Good : (s : State) (i : Bool) → Good arriving s → Good arriving (woken_up s i)
woken_up-Good s i (o, h, c) = (
  record {
    queue = o.queue;
    ordered =
        edited-IsOrdered o.queue s.table s.current off_channel refl (o.ordered.bounded s.current)
          o.ordered;
  },
  Held-with_intena i s.sync h,
  record {
    in_table = c.in_table;
    is_running =
        ap (λ (q : Proc). q.state) (edited_self s.table s.current off_channel) ∙ c.is_running;
  },
)

pub wake_up_run :
    (s : State) (i : Bool) (y : Sync)
    → release (with_intena i s.sync) ≡ ok tt y
    → sleep_return i true s ≡ ok tt (with_sync (woken_up s i) y)
unfolding sleep_return sched_return edited
wake_up_run s i y e = rw e refl

pub wake_up-Good :
    (s s' : State) (i : Bool) → Good arriving s → sleep_return i true s ≡ ok tt s' → Good process s'
wake_up-Good s s' i g e =
    let (o, h, c) = woken_up-Good s i g in
    let (y, run, f) = release-Held (with_intena i s.sync) h in
    subst (Good process) (one_state (wake_up_run s i y run) e) (Good-going (woken_up s i) y o f c)
