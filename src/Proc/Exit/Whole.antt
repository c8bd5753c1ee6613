-- ===== src/Proc/Exit/Whole.antt =====
-- exit() as a whole, up to the switch.
use fp_sisop20_b.Prelude.{
  ℕ, ◌+◌, ◌-◌, ◌%◌, ◌^◌, ◌≡◌, ◌≢◌, refl, sym, ap, ◌∙◌, ◌⊎◌, inl, inr, Bool, false, List, ◌∷◌, ◌==◌,
  ==_ne, ==_refl, ==→eq, ==→ne, Bool-cases, subst,
}
use fp_sisop20_b.Run.{ok, panics}
use fp_sisop20_b.Spinlock.Critical.{taken, acquire-taken}
use fp_sisop20_b.StateList.{Ptr, Slot}
use fp_sisop20_b.Proc.{Proc, running, zombie, swtch, Table, State, put, set_state}
use fp_sisop20_b.Proc.Invariant.{InTable, IsOrdered}
use fp_sisop20_b.Proc.Steps.{put_self, put_ne}
use fp_sisop20_b.Proc.Requeue.{set_state-state}
use fp_sisop20_b.Proc.Sched.{sched, add_time}
use fp_sisop20_b.Proc.Sched.Switch.{switched, sched-switched, add_time-Inv}
use fp_sisop20_b.Proc.Exit.{Outside, drop_cwd, exit_table, exit}
use fp_sisop20_b.Proc.Exit.Zombies.{any_child}
use fp_sisop20_b.Proc.Exit.Leave.{exit_table_lem}
use fp_sisop20_b.Proc.Exit.Handover.{left}
use fp_sisop20_b.Proc.Exit.Close.{Runs, mine, changed, IsOutside}
use fp_sisop20_b.Proc.Exit.Given.{Stripped, Emptied, stripped_lem}

-- The state with the directory of process `me` dropped.
abbrev without : Ptr → State → State
without me s = record s {
  table = record (s.table) { procs = put s.procs me (drop_cwd (s.procs me)) };
}

exit_run :
    (o : Outside) (s s4 : State) (t2 : Table) (s' : State) (r : Bool)
    → s.current ≢ s.initproc
    → Stripped o s s4
    → s4.sync.lock.locked ≡ false
    → exit_table s.current s4.initproc (without s.current s4).table ≡ ok tt t2
    → sched (record s4 { table = t2; sync = taken s4.sync }) ≡ ok r s'
    → exit o s ≡ ok r s'
unfolding exit
exit_run o s s4 t2 s' r ne w free run leave =
    rw (==_ne ne, w.closes, w.begins, w.puts, w.ends, acquire-taken s4.sync free, run) leave

exit_init : (o : Outside) (s : State) → s.current ≡ s.initproc → exit o s ≡ panics "init exiting"
unfolding exit
exit_init o s e = rw (e, ==_refl s.initproc) refl

-- The zombie: the ticks since the process got the CPU are added to its time.
abbrev pub dead : (ticks : ℕ) → Proc → Proc
dead ticks q = record q {
  state = zombie;
  cpu_ticks_total = (q.cpu_ticks_total + (ticks + 2 ^ 32 - q.cpu_ticks_in) % 2 ^ 32) % 2 ^ 32;
}

dead_lem : (ticks : ℕ) (q : Proc) → add_time ticks (set_state zombie q) ≡ dead ticks q
unfolding set_state
dead_lem ticks q = refl

-- What holds at the switch, for a process that took the lock in state `m`.
pub record Gone (queue : Slot → List Ptr) (m : State) (queue' : Slot → List Ptr) (s' : State)
    : Type 0 where
  pub ordered : IsOrdered queue' s'.table
  pub zombies : queue' Slot.zombie ≡ m.current ∷ queue Slot.zombie
  pub self :
      s'.procs m.current
      ≡ dead m.ticks (
          left m.current m.initproc
            (mine m).parent
            (any_child m.current m.procs (queue Slot.zombie))
            (mine m))
  pub others :
      (q : Ptr)
      → InTable q
      → q ≢ m.current
      → s'.procs q
        ≡ left m.current m.initproc
            (mine m).parent
            (any_child m.current m.procs (queue Slot.zombie))
            (m.procs q)
  pub trace : s'.trace ≡ swtch m.current ∷ m.trace
  pub held : s'.sync ≡ taken m.sync

-- How exit() of a process that is not init goes.
pub record Exited (o : Outside) (s m : State) (queue queue' : Slot → List Ptr) (s' : State)
    : Type 0 where
  pub emptied : Emptied s m
  pub before : IsOrdered queue m.table
  pub was_free : (m.sync.lock.locked ≡ false) × (m.sync.cpu.ncli ≡ 0)
  pub run : exit o s ≡ ok m.sync.cpu.interrupts s'
  pub gone : Gone queue m queue' s'

exit_other :
    (o : Outside) (s : State)
    → IsOutside o
    → Runs s
    → s.current ≢ s.initproc
    → (m : State) × (queue : Slot → List Ptr) × (queue' : Slot → List Ptr) × (s' : State) × Exited o
        s m queue queue' s'
exit_other o s law r ne =
    let (s4, w, e) = stripped_lem o s law r in
    let m = changed drop_cwd s4 in
    let me = m.current in
    let g = e.later.runs in
    let apart : me ≢ m.initproc = λ z. ne (sym w.same ∙ z ∙ e.later.initproc) in
    let (queue', t2, run2, inv2, zs, at_me, at_others, quiet) =
      exit_table_lem g.queue me m.initproc m.table g.ordered g.in_table apart g.is_running in
    let mid : State = record m { table = t2; sync = taken m.sync } in
    let other : (t2.procs me).state ≢ running = rw (at_me, set_state-state) (λ z. cc) in
    (
      m,
      g.queue,
      queue',
      switched mid,
      record {
        emptied = e;
        before = g.ordered;
        was_free = (g.unlocked, g.balanced);
        run =
            exit_run o s s4 t2 (switched mid) m.sync.cpu.interrupts ne w g.unlocked
              (subst (λ c. exit_table c s4.initproc (without c s4).table ≡ ok tt t2) w.same run2)
              (sched-switched mid m.sync refl g.balanced other);
        gone = record {
          ordered = add_time-Inv queue' mid inv2;
          zombies = zs;
          self =
              put_self t2.procs me (add_time m.ticks (t2.procs me))
              ∙ ap (add_time m.ticks) at_me
              ∙ dead_lem m.ticks _;
          others = λ q on away.
              put_ne t2.procs me (add_time m.ticks (t2.procs me)) q away ∙ at_others q on away;
          trace = ap (λ es. swtch me ∷ es) quiet;
          held = refl;
        };
      },
    )

-- exit(), called by a running process with the lock free on a table in order, where each call of file.c,
-- log.c and fs.c comes back to its caller with the table in order; other processes may run in the
-- meantime. Init panics. Any other process takes the lock in a state in which it has given back every file
-- that was open and its directory, and none is left. It reaches the switch with the lock held, and against
-- that state: it is a zombie, in front of the others, with its time counted; its parent wakes up; all of its
-- children have init as their parent, which wakes up if one of them is a zombie; no process changes
-- otherwise, and the table is in order.
pub exit_lem :
    (o : Outside) (s : State)
    → IsOutside o
    → Runs s
    → ((s.current ≡ s.initproc) × (exit o s ≡ panics "init exiting"))
      ⊎ ((s.current ≢ s.initproc)
          × ((m : State) × (queue : Slot → List Ptr) × (queue' : Slot → List Ptr) × (s' : State)
              × Exited o s m queue queue' s'))
exit_lem o s law r = elim (Bool-cases (s.current == s.initproc)) [
  | inl is ↦ let e = ==→eq s.current s.initproc is in inl (e, exit_init o s e)
  | inr other ↦ let ne = ==→ne s.current s.initproc other in inr (ne, exit_other o s law r ne)
]
