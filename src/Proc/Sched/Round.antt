-- ===== src/Proc/Sched/Round.antt =====
-- One round of the scheduler: the promotion when it is due, the choice and the switch.
use fp_sisop20_b.Prelude.{
  ℕ, ◌+◌, ◌%◌, ◌^◌, ◌≤◌, ◌≡◌, ◌≢◌, refl, ap, ◌∙◌, inl, inr, Bool, true, false, List, [], ◌∷◌, ◌++◌,
  ◌==◌, if◌then◌else◌, Bool-cases,
}
use fp_sisop20_b.Run.{ok}
use fp_sisop20_b.StateList.{Ptr, Slot, Lists, success, max_priority, assign, add_to_state_list_end}
use fp_sisop20_b.Proc.{
  Proc, running, Table, State, switchuvm, swtch, put, set_state, time_to_promote,
}
use fp_sisop20_b.Proc.Invariant.{InTable, home, Inv, IsOrdered}
use fp_sisop20_b.Proc.Steps.{add_end_step, Inv-edit_out, put_self, put-put_ne}
use fp_sisop20_b.Proc.Requeue.{set_state-state, set_state-priority}
use fp_sisop20_b.Proc.Sched.{promote_all, dispatch, promote_on_time}
use fp_sisop20_b.Proc.Sched.PromoteAll.{promoted_queue, promoted}
use fp_sisop20_b.Proc.Sched.Every.{promote_all_lem}

-- What the round starts from, with the promotion done if it is due.
abbrev pub due : State → Bool
due s = s.promote_at == s.ticks

abbrev pub queue_now : (Slot → List Ptr) → State → Slot → List Ptr
queue_now queue s = if due s then promoted_queue queue else queue

abbrev pub proc_now : State → Ptr → Proc
proc_now s q = if due s then promoted (s.procs q) else s.procs q

abbrev pub promote_at_now : State → ℕ
promote_at_now s = if due s then (s.ticks + time_to_promote) % 2 ^ 32 else s.promote_at

due_run :
    (s : State) (t : Table)
    → due s ≡ true
    → promote_all s.table ≡ ok tt t
    → promote_on_time s ≡ ok tt (record s { table = t; promote_at = promote_at_now s })
unfolding promote_on_time
due_run s t d run = rw (d, run) refl

undue_run : (s : State) → due s ≡ false → promote_on_time s ≡ ok tt s
unfolding promote_on_time
undue_run s d = rw d refl

pub promote_on_time_lem :
    (queue : Slot → List Ptr) (s : State)
    → IsOrdered queue s.table
    → (t : Table) × (promote_on_time s
        ≡ ok tt (record s { table = t; promote_at = promote_at_now s }))
      × IsOrdered (queue_now queue s) t
      × ((q : Ptr) → InTable q → t.procs q ≡ proc_now s q)
      × (t.trace ≡ s.trace)
promote_on_time_lem queue s inv = elim (Bool-cases (due s)) [
  | inl d ↦
      let (t, run, inv', is, quiet) = promote_all_lem queue s.table inv in
      (t, due_run s t d run, rw d inv', (λ q h. rw d (is q h)), quiet)
  | inr d ↦ (s.table, rw d (undue_run s d), rw d inv, (λ q h. rw d refl), refl)
]

-- The process as the scheduler switches to it.
abbrev pub dispatched : ℕ → Proc → Proc
dispatched ticks q = record (set_state running q) { cpu_ticks_in = ticks }

module _ (p : Ptr) (s : State) where
  -- The state at the switch.
  started : Lists → State
  started l = record s {
    table = record {
      procs =
          put (put s.procs p (set_state running (s.procs p))) p
            (record (put s.procs p (set_state running (s.procs p)) p) { cpu_ticks_in = s.ticks });
      lists = l;
      trace = swtch p ∷ switchuvm p ∷ s.trace;
    };
    current = p;
  }

  started_self : (l : Lists) → (started l).procs p ≡ dispatched s.ticks (s.procs p)
  unfolding started
  started_self l =
      put_self _ p _
      ∙ ap {A = Proc} {B = Proc} (λ q. record q { cpu_ticks_in = s.ticks })
          (put_self s.procs p (set_state running (s.procs p)))

  dispatch_run :
      (l : Lists)
      → add_to_state_list_end Slot.running p s.lists ≡ ok success l
      → dispatch p s ≡ ok tt (started l)
  unfolding dispatch started
  dispatch_run l run = rw run refl

  dispatched-home : (l : Lists) → home ((started l).procs p) ≡ Slot.running
  dispatched-home l = rw (started_self l, set_state-state) refl

  pub dispatch_lem :
      (queue : Slot → List Ptr)
      → Inv queue p s.procs s.lists
      → InTable p
      → (s' : State) × (dispatch p s ≡ ok tt s')
        × IsOrdered (assign queue Slot.running (queue Slot.running ++ p ∷ [])) s'.table
        × (s'.procs p ≡ dispatched s.ticks (s.procs p))
        × ((r : Ptr) → r ≢ p → s'.procs r ≡ s.procs r)
        × (s'.current ≡ p)
        × (s'.sync ≡ s.sync)
        × (s'.promote_at ≡ s.promote_at)
        × (s'.trace ≡ swtch p ∷ switchuvm p ∷ s.trace)
  unfolding started
  dispatch_lem queue inv h =
      let same = put-put_ne s.procs p (set_state running (s.procs p)) _ in
      let small : ((started s.lists).procs p).priority ≤ max_priority =
        rw (started_self s.lists, set_state-priority) (inv.bounded p) in
      let inv' = Inv-edit_out queue s.procs (started s.lists).procs s.lists p inv same small in
      let (l, run, inv2) =
        add_end_step queue _ s.lists Slot.running p inv' h (dispatched-home s.lists) in
      (started l, dispatch_run l run, inv2, started_self l, same, refl, refl, refl, refl)
