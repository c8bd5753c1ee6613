-- ===== src/Tests/Exit.antt =====
-- The theorem on exit at the table of the examples, whose running process is not init.
use fp_sisop20_b.Prelude.{◌+◌, ◌≡◌, ◌≢◌, refl, ◌⊎◌, List, [], ◌∷◌, inl, arith}
use fp_sisop20_b.Run.{Cmd, ok, panics}
use fp_sisop20_b.StateList.{Ptr, Slot}
use fp_sisop20_b.Proc.{Event, fileclose, iput, begin_op, end_op, State}
use fp_sisop20_b.Proc.Exit.{Outside, exit}
use fp_sisop20_b.Proc.Exit.Close.{Runs, ComesBack, IsOutside}
use fp_sisop20_b.Proc.Exit.Whole.{Exited, exit_lem}
use fp_sisop20_b.Examples.{queue, state, table-IsOrdered}

abbrev child_of_other : State
child_of_other = record state { initproc = 4 }

-- Calls that are noted, and let the clock go on.
abbrev waits : Event → Cmd State (Unit {0})
waits e s =
    ok tt (record s { table = record (s.table) { trace = e ∷ s.trace }; ticks = s.ticks + 1 })

abbrev slow : Outside
slow = record {
  fileclose = λ f. waits (fileclose f);
  begin_op = waits begin_op;
  iput = λ i. waits (iput i);
  end_op = waits end_op;
}

waits-ComesBack : (e : Event) → ComesBack e (waits e)
waits-ComesBack e s r = (
  record s { table = record (s.table) { trace = e ∷ s.trace }; ticks = s.ticks + 1 },
  refl,
  record {
    events = e ∷ [];
    later = record {
      current = refl;
      initproc = refl;
      trace = refl;
      runs = record {
        queue = r.queue;
        ordered = r.ordered;
        in_table = r.in_table;
        is_running = r.is_running;
        unlocked = r.unlocked;
        balanced = r.balanced;
      };
    };
    on = inl refl;
    files = λ i. refl;
    cwd = refl;
  },
)

slow-IsOutside : IsOutside slow
slow-IsOutside = record {
  closes = λ f. waits-ComesBack (fileclose f);
  begins = waits-ComesBack begin_op;
  puts = λ i. waits-ComesBack (iput i);
  ends = waits-ComesBack end_op;
}

child-Runs : Runs child_of_other
child-Runs = record {
  queue = queue;
  ordered = table-IsOrdered;
  in_table = omega arith;
  is_running = refl;
  unlocked = refl;
  balanced = refl;
}

exit_example :
    ((1 ≡ child_of_other.initproc) × (exit slow child_of_other ≡ panics "init exiting"))
    ⊎ ((1 ≢ child_of_other.initproc)
        × ((m : State) × (before : Slot → List Ptr) × (after : Slot → List Ptr) × (s' : State)
            × Exited slow child_of_other m before after s'))
exit_example = exit_lem slow child_of_other slow-IsOutside child-Runs
