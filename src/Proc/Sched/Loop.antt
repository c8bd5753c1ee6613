-- ===== src/Proc/Sched/Loop.antt =====
-- One round of the scheduler as a whole.
use fp_sisop20_b.Prelude.{
  ℕ, ◌≡◌, ◌≢◌, refl, ap, ◌∙◌, ◌⊎◌, inl, inr, true, false, List, [], ◌∷◌, ◌++◌, arith, ==_ne,
}
use fp_sisop20_b.Run.{ok}
use fp_sisop20_b.Spinlock.{release}
use fp_sisop20_b.Spinlock.Critical.{taken, dropped, acquire-taken, release-dropped}
use fp_sisop20_b.StateList.{Ptr, Slot, ready, Lists, assign}
use fp_sisop20_b.StateList.Chain.{has, head}
use fp_sisop20_b.Proc.{Table, State, switchuvm, swtch, hlt, ready_slots}
use fp_sisop20_b.Proc.Invariant.{InTable, IsOrdered}
use fp_sisop20_b.Proc.Sched.{pick, dispatch, sti, promote_on_time, scheduler}
use fp_sisop20_b.Proc.Sched.Pick.{in_order, pick_lem}
use fp_sisop20_b.Proc.Sched.Round.{
  queue_now, proc_now, promote_at_now, promote_on_time_lem, dispatched, dispatch_lem,
}

-- After an idle round.
pub record Idle (queue : Slot → List Ptr) (s s' : State) : Type 0 where
  pub nobody : in_order queue (0 ∷ 1 ∷ 2 ∷ []) ≡ []
  pub ordered : IsOrdered queue s'.table
  pub procs : (q : Ptr) → InTable q → s'.procs q ≡ proc_now s q
  pub unlocked : s'.sync.lock.locked ≡ false
  pub interruptible : s'.sync.cpu.interrupts ≡ true
  pub balanced : s'.sync.cpu.ncli ≡ s.sync.cpu.ncli
  pub alarm : s'.promote_at ≡ promote_at_now s
  pub trace : s'.trace ≡ hlt ∷ s.trace

-- At the switch to process `p`, which stood first on ready list `level`.
pub record Switched (queue : Slot → List Ptr) (s : State) (p : Ptr) (s' : State) : Type 0 where
  pub level : ℕ
  pub rest : List Ptr
  pub is_first : head (in_order queue (0 ∷ 1 ∷ 2 ∷ [])) ≡ p
  pub in_table : InTable p
  pub from : queue (ready level) ≡ p ∷ rest
  pub ordered :
      IsOrdered
        (let left = assign queue (ready level) rest in
          assign left Slot.running (left Slot.running ++ p ∷ []))
        s'.table
  pub chosen : s'.procs p ≡ dispatched s.ticks (proc_now s p)
  pub others : (q : Ptr) → InTable q → q ≢ p → s'.procs q ≡ proc_now s q
  pub current : s'.current ≡ p
  pub locked : s'.sync ≡ taken ((sti s).sync)
  pub alarm : s'.promote_at ≡ promote_at_now s
  pub trace : s'.trace ≡ swtch p ∷ switchuvm p ∷ s.trace

-- The state with the lock, after the promotion.
abbrev entered : State → Table → State
entered s t = record s { table = t; promote_at = promote_at_now s; sync = taken ((sti s).sync) }

idle_run :
    (s : State) (t : Table)
    → s.sync.lock.locked ≡ false
    → promote_on_time (record s { sync = taken ((sti s).sync) }) ≡ ok tt (entered s t)
    → pick ready_slots t ≡ ok 0 t
    → release (taken ((sti s).sync)) ≡ ok tt (dropped ((sti s).sync))
    → scheduler s
      ≡ ok 0 (
          sti (record s {
            table = record t { trace = hlt ∷ t.trace };
            promote_at = promote_at_now s;
            sync = dropped ((sti s).sync);
          }))
unfolding scheduler
idle_run s t free run run' run'' = rw (acquire-taken ((sti s).sync) free, run, run', run'') refl

switch_run :
    (s : State) (t : Table) (p : Ptr) (l : Lists) (s' : State)
    → s.sync.lock.locked ≡ false
    → promote_on_time (record s { sync = taken ((sti s).sync) }) ≡ ok tt (entered s t)
    → pick ready_slots t ≡ ok p (record t { lists = l })
    → p ≢ 0
    → dispatch p (record (entered s t) { table = record t { lists = l } }) ≡ ok tt s'
    → scheduler s ≡ ok p s'
unfolding scheduler
switch_run s t p l s' free run run' ne run'' =
    rw (acquire-taken ((sti s).sync) free, run, run', ==_ne ne, run'') refl

-- Where the lock is free and no pushcli is open, a round of the scheduler on a table in order comes
-- to one of two ends, after promoteAll() if the time is up, which sets the next time. Where every
-- ready list is empty, it gives the lock back and halts with interrupts on. Otherwise it takes the
-- first process of the first ready list that has one, puts it, running, behind the others that
-- run, notes the time and switches to it with the lock held. The table stays in order, and no other
-- process changes.
pub scheduler_lem :
    (queue : Slot → List Ptr) (s : State)
    → IsOrdered queue s.table
    → s.sync.lock.locked ≡ false
    → s.sync.cpu.ncli ≡ 0
    → ((s' : State) × (scheduler s ≡ ok 0 s') × Idle (queue_now queue s) s s')
      ⊎ ((p : Ptr) × (s' : State) × (scheduler s ≡ ok p s') × Switched (queue_now queue s) s p s')
scheduler_lem queue s inv free n =
    let s0 = record s { sync = taken ((sti s).sync) } in
    let (t, run, inv1, is, quiet) = promote_on_time_lem queue s0 inv in
    elim (pick_lem (queue_now queue s) t (0 ∷ 1 ∷ 2 ∷ []) inv1 (refl, (refl, (refl, tt)))) [
      | inl (nobody, run') ↦ inl (
        _,
        idle_run s t free run run' (
            release-dropped ((sti s).sync)
              (record { unlocked = free; nested = λ h. absurd (omega arith) })),
        record {
          nobody = nobody;
          ordered = inv1;
          procs = is;
          unlocked = refl;
          interruptible = refl;
          balanced = refl;
          alarm = refl;
          trace = ap (λ es. hlt ∷ es) quiet;
        },
      )
      | inr (p, l, run', w) ↦
          let on : has p (queue_now queue s (ready w.level)) ≡ true = rw w.from (ground arith) in
          let h = inv1.within (ready w.level) p on in
          let (s', run'', inv2, chosen, others, current, locked, alarm, trace) =
            dispatch_lem p (record (entered s t) { table = record t { lists = l } })
              (assign (queue_now queue s) (ready w.level) w.rest) w.ordered h in
          inr (
            p,
            s',
            switch_run s t p l s' free run run' (λ z. omega arith) run'',
            record {
              level = w.level;
              rest = w.rest;
              is_first = w.is_first;
              in_table = h;
              from = w.from;
              ordered = inv2;
              chosen = chosen ∙ ap (dispatched s.ticks) (is p h);
              others = λ q hq ne. others q ne ∙ is q hq;
              current = current;
              locked = locked;
              alarm = alarm;
              trace = trace ∙ ap (λ es. swtch p ∷ switchuvm p ∷ es) quiet;
            },
          )
    ]
