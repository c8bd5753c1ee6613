-- ===== src/Kernel/Calls.antt =====
-- The calls from which a process comes back.
use fp_sisop20_b.Prelude.{
  ℕ, ◌≤◌, ◌≡◌, ◌≢◌, refl, sym, ap, subst, ◌∙◌, inl, inr, List, ◌==◌, ==→eq, ==→ne, Bool-cases,
}
use fp_sisop20_b.Run.{ok, one_state}
use fp_sisop20_b.Spinlock.Critical.{IsFree}
use fp_sisop20_b.StateList.{Ptr, Slot, Status, max_priority}
use fp_sisop20_b.Proc.{running, Proc, Table, State}
use fp_sisop20_b.Proc.Invariant.{InTable, IsOrdered}
use fp_sisop20_b.Proc.Sleep.{wakeup, kill, setpriority}
use fp_sisop20_b.Proc.Sleep.Guarded.{unlocked, wakeup_lem, kill_lem, setpriority_lem}
use fp_sisop20_b.Proc.Sleep.Strike.{struck}
use fp_sisop20_b.Proc.Sleep.Reset.{reset, reset-state}
use fp_sisop20_b.Proc.Exit.Leave.{scanned_awake}
use fp_sisop20_b.Proc.Alloc.{fork}
use fp_sisop20_b.Proc.Alloc.Offspring.{Kept}
use fp_sisop20_b.Proc.Alloc.Fork.{fork_lem}
use fp_sisop20_b.Kernel.{process}
use fp_sisop20_b.Kernel.Order.{Free, Current, Good, Free-IsFree, Free-dropped, Free-of}

-- The current process still runs.
pub Current-kept :
    (s s' : State)
    → Current s
    → s'.current ≡ s.current
    → (s'.procs s.current).state ≡ running
    → Current s'
Current-kept s s' c e st = record {
  in_table = subst InTable (sym e) c.in_table;
  is_running = subst (λ p. (s'.procs p).state ≡ running) (sym e) st;
}

-- One process changes, in a way that keeps a running one running.
kept_running :
    (t t' : Table) (p c : Ptr) (g : Proc → Proc)
    → t'.procs p ≡ g (t.procs p)
    → ((r : Ptr) → r ≢ p → t'.procs r ≡ t.procs r)
    → ((q : Proc) → q.state ≡ running → (g q).state ≡ running)
    → (t.procs c).state ≡ running
    → (t'.procs c).state ≡ running
kept_running t t' p c g changed same keeps st = elim (Bool-cases (c == p)) [
  | inl is ↦
      let e = ==→eq c p is in
      subst (λ r. (t'.procs r).state ≡ running) (sym e)
        (ap (λ (q : Proc). q.state) changed
          ∙ keeps (t.procs p) (subst (λ r. (t.procs r).state ≡ running) e st))
  | inr ne ↦ ap (λ (q : Proc). q.state) (same c (==→ne c p ne)) ∙ st
]

struck-state : (q : Proc) → q.state ≡ running → (struck q).state ≡ running
struck-state q e = rw e refl

Good-unlocked :
    (queue : Slot → List Ptr) (s : State) (t : Table)
    → Free s.sync
    → Current s
    → IsOrdered queue t
    → (t.procs s.current).state ≡ running
    → Good process (unlocked s t)
Good-unlocked queue s t f c inv st = (
  record { queue = queue; ordered = inv },
  Free-dropped s.sync f,
  Current-kept s (unlocked s t) c refl st,
)

pub wakeup-Good :
    (s s' : State) (chan : ℕ) → Good process s → wakeup chan s ≡ ok tt s' → Good process s'
wakeup-Good s s' chan (o, f, c) e =
    let (t', run, inv', is, quiet) = wakeup_lem o.queue s chan o.ordered (Free-IsFree s.sync f) in
    let st : (t'.procs s.current).state ≡ running =
      ap (λ (q : Proc). q.state)
        (is s.current c.in_table ∙ scanned_awake chan (s.procs s.current) c.is_running)
      ∙ c.is_running in
    subst (Good process) (one_state run e) (Good-unlocked _ s t' f c inv' st)

pub kill-Good :
    (s s' : State) (pid : ℕ) (r : Status) → Good process s → kill pid s ≡ ok r s' → Good process s'
kill-Good s s' pid r (o, f, c) e = elim (kill_lem o.queue s pid o.ordered (Free-IsFree s.sync f)) [
  | inl (run, none) ↦
      subst (Good process) (one_state run e)
        (Good-unlocked o.queue s s.table f c o.ordered c.is_running)
  | inr (p, t', run, w) ↦ subst (Good process) (one_state run e) (
      Good-unlocked _ s t' f c w.ordered
        (kept_running s.table t' p s.current struck w.changed w.same struck-state c.is_running))
]

pub setpriority-Good :
    (s s' : State) (pid n : ℕ) (r : Status)
    → n ≤ max_priority
    → Good process s
    → setpriority pid n s ≡ ok r s'
    → Good process s'
setpriority-Good s s' pid n r small (o, f, c) e =
    elim (setpriority_lem o.queue s pid n o.ordered small (Free-IsFree s.sync f)) [
      | inl (run, none) ↦
          subst (Good process) (one_state run e)
            (Good-unlocked o.queue s s.table f c o.ordered c.is_running)
      | inr (p, t', run, w) ↦ subst (Good process) (one_state run e) (
          Good-unlocked _ s t' f c w.ordered (
            kept_running s.table t' p s.current (reset n) w.changed w.same
              (λ q st. reset-state n q ∙ st) c.is_running))
    ]

Good-forked :
    (queue : Slot → List Ptr) (s s' : State)
    → Free s.sync
    → Current s
    → IsOrdered queue s'.table
    → IsFree s'.sync
    → Kept s s'
    → Good process s'
Good-forked queue s s' f c inv free k = (
  record { queue = queue; ordered = inv },
  Free-of s'.sync free (k.balanced ∙ f.balanced),
  Current-kept s s' c k.current (ap (λ (q : Proc). q.state) k.self ∙ c.is_running),
)

pub fork-Good :
    (s s' : State) (page pgdir pid : ℕ)
    → Good process s
    → fork page pgdir s ≡ ok pid s'
    → Good process s'
fork-Good s s' page pgdir pid (o, f, c) e =
    elim (fork_lem o.queue page pgdir s o.ordered (Free-IsFree s.sync f) c.is_running) [
      | inl (empty, run) ↦ subst (Good process) (one_state run e) (
        record { queue = o.queue; ordered = o.ordered },
        Free-dropped s.sync f,
        record { in_table = c.in_table; is_running = c.is_running },
      )
      | inr (inl (t, no_page, run, inv, free, k)) ↦
          subst (Good process) (one_state run e) (Good-forked o.queue s t f c inv free k)
      | inr (inr (inl (p, t, u))) ↦
          subst (Good process) (one_state u.run e)
            (Good-forked o.queue s t f c u.ordered u.unlocked u.kept)
      | inr (inr (inr (p, rest, t, b))) ↦
          subst (Good process) (one_state b.run e)
            (Good-forked _ s t f c b.ordered b.unlocked b.kept)
    ]
