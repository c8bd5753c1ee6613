-- ===== src/Kernel/Progress.antt =====
-- No call of the kernel panics, faults or spins, and the CPU always goes on.
use fp_sisop20_b.Prelude.{ℕ, ◌≤◌, ◌≡◌, ◌≢◌, ◌∙◌, inl, inr, Bool, true}
use fp_sisop20_b.Run.{Run, ok}
use fp_sisop20_b.Spinlock.Critical.{taken}
use fp_sisop20_b.StateList.{max_priority}
use fp_sisop20_b.Proc.{State}
use fp_sisop20_b.Proc.Sched.{yield_cpu, yield_return, scheduler, scheduler_return}
use fp_sisop20_b.Proc.Sched.Switch.{yield_cpu_any}
use fp_sisop20_b.Proc.Sched.Loop.{scheduler_lem}
use fp_sisop20_b.Proc.Sleep.{sleep_on, sleep_return, wakeup, kill, setpriority}
use fp_sisop20_b.Proc.Sleep.Doze.{sleep_on_lem}
use fp_sisop20_b.Proc.Sleep.Guarded.{wakeup_lem, kill_lem, setpriority_lem}
use fp_sisop20_b.Proc.Alloc.{fork}
use fp_sisop20_b.Proc.Alloc.Fork.{fork_lem}
use fp_sisop20_b.Proc.Exit.{Outside, exit}
use fp_sisop20_b.Proc.Exit.Close.{IsOutside}
use fp_sisop20_b.Proc.Exit.Whole.{exit_lem}
use fp_sisop20_b.Proc.Wait.{wait, wait_again}
use fp_sisop20_b.Kernel.{Phase, process, leaving, idle, arriving, forkret_release, Reach}
use fp_sisop20_b.Kernel.Order.{Good, Free-IsFree, release-Held, with_intena, Held-with_intena}
use fp_sisop20_b.Kernel.Switches.{
  Good-Runs, return_run, start_run, resume_run, wake_up_run, woken_up-Good, with_sync, woken_up,
}
use fp_sisop20_b.Kernel.Waits.{round-Good, locked_Good, wait_run, wait_again_run}
use fp_sisop20_b.Kernel.Runs.{reach_lem}

-- A command ends with a value.
abbrev pub Ends : {A : Type 0} → (State → Run State A) → State → Type 0
Ends {A} m s = (a : A) × (s' : State) × (m s ≡ ok a s')

-- The calls of a process.
pub record Answers (s : State) : Type 0 where
  pub wakes : (chan : ℕ) → Ends (wakeup chan) s
  pub kills : (pid : ℕ) → Ends (kill pid) s
  pub sets : (pid n : ℕ) → n ≤ max_priority → Ends (setpriority pid n) s
  pub forks : (page pgdir : ℕ) → Ends (fork page pgdir) s
  pub waits : Ends wait s
  pub yields : Ends yield_cpu s
  pub sleeps : (chan : ℕ) → Ends (sleep_on chan) s
  pub exits : s.current ≢ s.initproc → (o : Outside) → IsOutside o → Ends (exit o) s

-- The ways back from swtch().
pub record ComesBack (s : State) : Type 0 where
  pub starts : Ends forkret_release s
  pub resumes : (intena : Bool) → Ends (yield_return intena) s
  pub wakes_up : (intena : Bool) → Ends (sleep_return intena true) s
  pub waits_on : (intena : Bool) → Ends (wait_again intena) s

-- What the CPU can do in each phase.
abbrev pub GoesOn : Phase → State → Type 0
GoesOn process s = Answers s
GoesOn leaving s = Ends scheduler_return s
GoesOn idle s = Ends scheduler s
GoesOn arriving s = ComesBack s

module _ (s : State) where
  forks_end : (page pgdir : ℕ) → Good process s → Ends (fork page pgdir) s
  forks_end page pgdir (o, f, c) =
      elim (fork_lem o.queue page pgdir s o.ordered (Free-IsFree s.sync f) c.is_running) [
        | inl (empty, run) ↦ (_, _, run)
        | inr (inl (t, no_page, run, inv, free, k)) ↦ (_, t, run)
        | inr (inr (inl (p, t, u))) ↦ (_, t, u.run)
        | inr (inr (inr (p, rest, t, b))) ↦ (_, t, b.run)
      ]

  kills_end : (pid : ℕ) → Good process s → Ends (kill pid) s
  kills_end pid (o, f, c) = elim (kill_lem o.queue s pid o.ordered (Free-IsFree s.sync f)) [
    | inl (run, none) ↦ (_, _, run)
    | inr (p, t', run, w) ↦ (_, _, run)
  ]

  sets_end : (pid n : ℕ) → n ≤ max_priority → Good process s → Ends (setpriority pid n) s
  sets_end pid n small (o, f, c) =
      elim (setpriority_lem o.queue s pid n o.ordered small (Free-IsFree s.sync f)) [
        | inl (run, none) ↦ (_, _, run)
        | inr (p, t', run, w) ↦ (_, _, run)
      ]

  exits_end :
      s.current ≢ s.initproc → (o : Outside) → IsOutside o → Good process s → Ends (exit o) s
  exits_end ne o law g = elim (exit_lem o s law (Good-Runs s g)) [
    | inl (is, run) ↦ absurd (ne is)
    | inr (ne', (m, queue, queue', t, w)) ↦ (_, t, w.run)
  ]

  waits_end : Good process s → Ends wait s
  waits_end g =
      let (w, t, run, good) = round-Good (with_sync s (taken s.sync)) (locked_Good s g) in
      (w, t, wait_run s g.1.unlocked ∙ run)

  answers : Good process s → Answers s
  answers (o, f, c) = record {
    wakes = λ chan.
        let (t', run, inv', is, quiet) =
          wakeup_lem o.queue s chan o.ordered (Free-IsFree s.sync f) in
        (tt, _, run);
    kills = λ pid. kills_end pid (o, f, c);
    sets = λ pid n small. sets_end pid n small (o, f, c);
    forks = λ page pgdir. forks_end page pgdir (o, f, c);
    waits = waits_end (o, f, c);
    yields =
        let (t, run, inv, self, same, sync) =
          yield_cpu_any o.queue s o.ordered c.in_table c.is_running f.unlocked f.balanced in
        (_, t, run);
    sleeps = λ chan.
        let (t, run, w, sync) =
          sleep_on_lem o.queue s chan o.ordered c.in_table c.is_running f.unlocked f.balanced in
        (_, t, run);
    exits = λ ne out law. exits_end ne out law (o, f, c);
  }

  comes_back : Good arriving s → ComesBack s
  comes_back (o, h, c) = record {
    starts = let (y, run, f) = release-Held s.sync h in (tt, _, start_run s y run);
    resumes = λ i.
        let (y, run, f) = release-Held (with_intena i s.sync) (Held-with_intena i s.sync h) in
        (tt, _, resume_run s i y run);
    wakes_up = λ i.
        let (y, run, f) = release-Held (with_intena i s.sync) (Held-with_intena i s.sync h) in
        (tt, _, wake_up_run s i y run);
    waits_on = λ i.
        let (w, t, run, good) = round-Good (woken_up s i) (woken_up-Good s i (o, h, c)) in
        (w, t, wait_again_run s i ∙ run);
  }

  schedules : Good idle s → Ends scheduler s
  schedules (o, f) = elim (scheduler_lem o.queue s o.ordered f.unlocked f.balanced) [
    | inl (t, run, w) ↦ (_, t, run)
    | inr (p, t, run, w) ↦ (p, t, run)
  ]

  goes_on : (p : Phase) → Good p s → GoesOn p s
  goes_on process g = answers g
  goes_on leaving (o, h) = let (y, run, f) = release-Held s.sync h in (tt, _, return_run s y run)
  goes_on idle g = schedules g
  goes_on arriving g = comes_back g

-- In every state that is reached from one in order, the CPU goes on: each call of a process comes to an end
-- without a panic, a spin or an access outside an array, but for exit() of init, and so do the scheduler's
-- round, the way back to it, and each way back into a process.
pub progress_lem : {s t : State} {p q : Phase} → Good p s → Reach s p t q → GoesOn q t
progress_lem {t} {q} g r = goes_on t q (reach_lem g r)
