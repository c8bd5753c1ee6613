-- ===== src/Kernel/Waits.antt =====
-- wait(): a process that looks for its zombie children, and sleeps until there is one.
use fp_sisop20_b.Prelude.{ℕ, ◌≡◌, refl, sym, ap, subst, ◌∙◌, inl, inr, Bool, false, List}
use fp_sisop20_b.Run.{ok, one_state, one_value}
use fp_sisop20_b.Spinlock.Critical.{taken, dropped, acquire-taken}
use fp_sisop20_b.StateList.{Ptr, Slot}
use fp_sisop20_b.Proc.{running, zombie, Proc, State}
use fp_sisop20_b.Proc.Edits.{edited}
use fp_sisop20_b.Proc.Sched.{sched_return}
use fp_sisop20_b.Proc.Sleep.{sleep_return}
use fp_sisop20_b.Proc.Alloc.{minus_one}
use fp_sisop20_b.Proc.Wait.{returned, asleep, Waited, wait, wait_again, wait_round}
use fp_sisop20_b.Proc.Wait.Look.{wait_round_lem, Collected}
use fp_sisop20_b.Kernel.{process, leaving, arriving}
use fp_sisop20_b.Kernel.Order.{Free, Current, Good, Free-IsFree, Free-dropped}
use fp_sisop20_b.Kernel.Calls.{Current-kept}
use fp_sisop20_b.Kernel.Switches.{with_sync, woken_up, woken_up-Good}

-- What a round of wait() leads to.
abbrev pub Looked : Waited → State → Type 0
Looked (returned pid) s = Good process s
Looked (asleep i) s = Good leaving s

-- The process that waits is not the zombie that it finds.
still :
    (queue : Slot → List Ptr) (s t : State) (p : ℕ)
    → Collected queue s p t
    → Current s
    → (t.procs s.current).state ≡ running
still queue s t p w c =
    ap (λ (q : Proc). q.state) (w.others s.current (λ e. apart e)) ∙ c.is_running
  where
    apart : s.current ≡ p → ⊥
    apart e =
        let is = subst (λ r. (s.procs r).state ≡ zombie) (sym e) w.is_zombie in
        let on = c.is_running in cc

-- A round comes to an end, in order.
pub round-Good :
    (s : State)
    → Good arriving s
    → (w : Waited) × (s' : State) × (wait_round s ≡ ok w s') × Looked w s'
round-Good s (o, h, c) =
    let y = h.before in
    elim (wait_round_lem o.queue s y o.ordered c.in_table c.is_running h.held
      (Free-IsFree y h.was_free) h.was_free.balanced) [
        | inl (p, t, run, w, sync) ↦ (
          returned (s.procs p).pid,
          t,
          run,
          (
            record { queue = _; ordered = w.ordered },
            subst Free (sym sync) (Free-dropped y h.was_free),
            Current-kept s t c w.same_cpu (still o.queue s t p w c),
          ),
        )
        | inr (inl (none, why, run)) ↦ (
          returned minus_one,
          with_sync s (dropped y),
          run,
          (
            record { queue = o.queue; ordered = o.ordered },
            Free-dropped y h.was_free,
            record { in_table = c.in_table; is_running = c.is_running },
          ),
        )
        | inr (inr (none, kid, alive, t, run, w, sync)) ↦ (
          asleep y.cpu.interrupts,
          t,
          run,
          (
            record { queue = _; ordered = w.ordered },
            record { before = y; held = sync ∙ h.held; was_free = h.was_free },
          ),
        )
      ]

-- The state of wait() with the lock, at its start and after a sleep.
pub locked_Good : (s : State) → Good process s → Good arriving (with_sync s (taken s.sync))
locked_Good s (o, f, c) = (
  record { queue = o.queue; ordered = o.ordered },
  record { before = s.sync; held = refl; was_free = f },
  record { in_table = c.in_table; is_running = c.is_running },
)

pub wait_run :
    (s : State) → s.sync.lock.locked ≡ false → wait s ≡ wait_round (with_sync s (taken s.sync))
unfolding wait
wait_run s free = rw (acquire-taken s.sync free) refl

pub wait_again_run : (s : State) (i : Bool) → wait_again i s ≡ wait_round (woken_up s i)
unfolding wait_again sleep_return sched_return edited
wait_again_run s i = refl

pub wait-Good : (s s' : State) (w : Waited) → Good process s → wait s ≡ ok w s' → Looked w s'
wait-Good s s' w g e =
    let (w', t, run, good) = round-Good (with_sync s (taken s.sync)) (locked_Good s g) in
    let run' = wait_run s g.1.unlocked ∙ run in
    subst (λ x. Looked x s') (one_value run' e) (subst (Looked w') (one_state run' e) good)

pub wait_again-Good :
    (s s' : State) (i : Bool) (w : Waited)
    → Good arriving s
    → wait_again i s ≡ ok w s'
    → Looked w s'
wait_again-Good s s' i w g e =
    let (w', t, run, good) = round-Good (woken_up s i) (woken_up-Good s i g) in
    let run' = wait_again_run s i ∙ run in
    subst (λ x. Looked x s') (one_value run' e) (subst (Looked w') (one_state run' e) good)
