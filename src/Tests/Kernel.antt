-- ===== src/Tests/Kernel.antt =====
-- The theorems on the composed calls, from the table of the examples.
use fp_sisop20_b.Prelude.{
  ℕ, ◌≡◌, ◌≢◌, ◌⊎◌, inl, inr, [], ◌==◌, ==→eq, ==→ne, Bool-cases, subst, refl, sym, ap, ◌∙◌, true,
  arith,
}
use fp_sisop20_b.Run.{Run, ok, state_of}
use fp_sisop20_b.Proc.{State}
use fp_sisop20_b.Proc.Sched.{yield_cpu}
use fp_sisop20_b.Proc.Sched.Switch.{yield_cpu_any}
use fp_sisop20_b.Kernel.{process, leaving, tick, Step, here, next, ticked, yields}
use fp_sisop20_b.Kernel.Order.{Good}
use fp_sisop20_b.Kernel.Runs.{reach_lem}
use fp_sisop20_b.Kernel.Progress.{GoesOn}
use fp_sisop20_b.Examples.{blank, queue, table-IsOrdered, state, free_sync}
use fp_sisop20_b.Proc.{Table}
use fp_sisop20_b.Proc.Sched.{scheduler}
use fp_sisop20_b.Proc.Init.{userinit}
use fp_sisop20_b.Proc.Init.Fill.{Blank}
use fp_sisop20_b.Proc.Init.Whole.{Booted, userinit_lem}
use fp_sisop20_b.Kernel.{Phase, idle, arriving, rests, runs}
use fp_sisop20_b.Kernel.Order.{Free}
use fp_sisop20_b.Kernel.Boot.{boot_lem}
use fp_sisop20_b.Run.{panics, faults}
use fp_sisop20_b.Tests.{free_sync-IsFree}

same_result :
    {A : Type 0} {a : A} {t : State} {r : Run State A} → r ≡ ok a t → r ≡ ok a (state_of state r)
same_result {a} run = run ∙ ap (λ r. ok a (state_of state r)) (sym run)

start : Good process state
start = (
  record { queue = queue; ordered = table-IsOrdered },
  record { unlocked = refl; balanced = refl },
  record { in_table = omega arith; is_running = refl },
)

abbrev gone : State
gone = state_of state (yield_cpu state)

yield-Step : Step state gone process leaving
yield-Step =
    let (t, run, inv, self, same, sync) =
      yield_cpu_any queue state table-IsOrdered (omega arith) refl refl refl in
    yields true (same_result run)

reach_example : Good leaving (tick gone)
reach_example = reach_lem start (ticked (next here yield-Step))

-- Memory at the start.
abbrev stack_page : ℕ
stack_page = 4096

abbrev page_directory : ℕ
page_directory = 8192

abbrev zeroed : Table
zeroed = record { procs = λ p. blank; lists = record { next = λ p. 0; head = λ k. 0 }; trace = [] }

abbrev powered : State
powered = record {
  table = zeroed;
  promote_at = 0;
  sync = free_sync;
  current = 0;
  initproc = 0;
  nextpid = 1;
  ticks = 0;
}

zeroed-Blank : Blank zeroed
zeroed-Blank = record { heads = λ k. refl; states = λ p. refl; bounded = λ p. omega arith }

powered-Free : Free powered.sync
powered-Free = record { unlocked = refl; balanced = refl }

userinit_example :
    ((stack_page ≡ 0) × (userinit stack_page page_directory 3 powered ≡ faults))
    ⊎ ((stack_page ≢ 0)
        × (page_directory ≡ 0)
        × (userinit stack_page page_directory 3 powered ≡ panics "userinit: out of memory?"))
    ⊎ ((stack_page ≢ 0)
        × (page_directory ≢ 0)
        × ((s' : State) × Booted stack_page page_directory 3 powered s'))
userinit_example = userinit_lem stack_page page_directory 3 powered zeroed-Blank free_sync-IsFree

abbrev up : State
up = state_of powered (userinit stack_page page_directory 3 powered)

boots : userinit stack_page page_directory 3 powered ≡ ok tt up
boots = elim userinit_example [
  | inl (none, fault) ↦ absurd (omega (arith, none))
  | inr (inl (some_, none, stop)) ↦ absurd (omega (arith, none))
  | inr (inr (some_, some', (t, b))) ↦ b.run ∙ ap (λ r. ok tt (state_of powered r)) (sym b.run)
]

-- The first round of the scheduler.
first_round : (q : Phase) × (t : State) × Step up t idle q
first_round =
    let (good, (p, t, run)) =
      boot_lem stack_page page_directory 3 powered up zeroed-Blank powered-Free boots here in
    elim (Bool-cases (p == 0)) [
      | inl none ↦ (idle, t, rests (subst (λ r. scheduler up ≡ ok r t) (==→eq p 0 none) run))
      | inr some_ ↦ (arriving, t, runs p (==→ne p 0 some_) run)
    ]

boot_example : Good first_round.0 first_round.1 × GoesOn first_round.0 first_round.1
boot_example =
    boot_lem stack_page page_directory 3 powered up zeroed-Blank powered-Free boots
      (next here first_round.2)
