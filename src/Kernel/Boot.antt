-- ===== src/Kernel/Boot.antt =====
-- The kernel from its start: userinit(), then any sequence of steps of the CPU.
use fp_sisop20_b.Prelude.{ℕ, ◌≡◌, sym, subst, ◌∙◌, inl, inr}
use fp_sisop20_b.Run.{ok, one_state, no_fault, no_panic}
use fp_sisop20_b.Proc.{State}
use fp_sisop20_b.Proc.Init.{userinit}
use fp_sisop20_b.Proc.Init.Fill.{Blank}
use fp_sisop20_b.Proc.Init.Boot.{boot_queue}
use fp_sisop20_b.Proc.Init.Whole.{Booted, userinit_lem}
use fp_sisop20_b.Kernel.{Phase, idle, Reach}
use fp_sisop20_b.Kernel.Order.{Free, Good, Free-IsFree, Free-dropped}
use fp_sisop20_b.Kernel.Runs.{reach_lem}
use fp_sisop20_b.Kernel.Progress.{GoesOn, progress_lem}

booted-Good :
    {page pgdir cwd : ℕ} {s s' : State} → Free s.sync → Booted page pgdir cwd s s' → Good idle s'
booted-Good {s} f b = (
  record { queue = boot_queue; ordered = b.ordered },
  subst Free (sym b.sync) (Free-dropped s.sync f),
)

userinit-Good :
    (page pgdir cwd : ℕ) (s s' : State)
    → Blank s.table
    → Free s.sync
    → userinit page pgdir cwd s ≡ ok tt s'
    → Good idle s'
userinit-Good page pgdir cwd s s' blank f run =
    elim (userinit_lem page pgdir cwd s blank (Free-IsFree s.sync f)) [
      | inl (no_page, fault) ↦ absurd (no_fault (sym fault ∙ run))
      | inr (inl (a_page, no_pgdir, stop)) ↦ absurd (no_panic (sym stop ∙ run))
      | inr (inr (a_page, a_pgdir, (t, b))) ↦
          subst (Good idle) (one_state b.run run) (booted-Good f b)
    ]

-- Once userinit() is back, in every state that the kernel then reaches, each process is on exactly the
-- list of its state, the lock is held at the switches alone, and the CPU goes on: each call that a
-- process can make there comes to an end without a panic, a spin or an access outside an array, but for
-- exit() of init, and so do the scheduler's round, the way back to it, and each way back into a process.
-- The calls that exit() makes of other parts come back, with the table in order.
pub boot_lem :
    {t : State} {q : Phase} (page pgdir cwd : ℕ) (s s' : State)
    → Blank s.table
    → Free s.sync
    → userinit page pgdir cwd s ≡ ok tt s'
    → Reach s' idle t q
    → Good q t × GoesOn q t
boot_lem page pgdir cwd s s' blank f run r =
    let g = userinit-Good page pgdir cwd s s' blank f run in (reach_lem g r, progress_lem g r)
