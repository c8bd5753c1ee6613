-- ===== src/Proc/Wait/Reap.antt =====
-- A zombie child goes back to the free list.
use fp_sisop20_b.Prelude.{update, ◌≤◌, ◌≡◌, ◌≢◌, refl, sym, ap, ap₂, subst, ◌∙◌, List, ◌∷◌}
use fp_sisop20_b.Run.{ok}
use fp_sisop20_b.StateList.{
  Ptr, Slot, Lists, success, max_priority, add_to_state_list_head, remove_from_state_list,
}
use fp_sisop20_b.Proc.{Proc, ProcState, unused, zombie, kfree, freevm, Table, put, set_state}
use fp_sisop20_b.Proc.Invariant.{InTable, slot_of, home, IsOrdered}
use fp_sisop20_b.Proc.Steps.{put_self, put_ne}
use fp_sisop20_b.Proc.Requeue.{assert_state-ok, stacked, stack_step}
use fp_sisop20_b.Proc.Edits.{edited, edited_self, edited_ne, edited-trace, edited-IsOrdered}
use fp_sisop20_b.Proc.Alloc.{set_kstack}
use fp_sisop20_b.Proc.Alloc.Child.{kstack-state, kstack-priority}
use fp_sisop20_b.Proc.Wait.{wipe, reap}

-- The process after it: unused, with no stack, pid, parent, name or mark of kill().
abbrev pub reaped : Proc → Proc
reaped q = record q {
  state = unused;
  kstack = 0;
  pid = 0;
  parent = 0;
  name = update q.name 0 0;
  killed = 0;
}

reaped_lem : (q : Proc) → wipe (set_state unused (set_kstack 0 q)) ≡ reaped q
unfolding wipe set_state set_kstack
reaped_lem q = refl

module _ (queue : Slot → List Ptr) (t : Table) (p : Ptr) where
  -- The table before the list operations.
  stripped : Table
  stripped =
      let t' =
        edited (record t { trace = kfree ((t.procs p).kstack) ∷ t.trace }) p (set_kstack 0) in
      record t' { trace = freevm ((t.procs p).pgdir) ∷ t'.trace }

  abbrev moved : Lists → Table
  moved l = record stripped {
    procs = put stripped.procs p (set_state unused (stripped.procs p));
    lists = l;
  }

  stripped_self : stripped.procs p ≡ set_kstack 0 (t.procs p)
  unfolding stripped
  stripped_self =
      edited_self (record t { trace = kfree ((t.procs p).kstack) ∷ t.trace }) p (set_kstack 0)

  stripped_ne : (r : Ptr) → r ≢ p → stripped.procs r ≡ t.procs r
  unfolding stripped
  stripped_ne r ne =
      edited_ne (record t { trace = kfree ((t.procs p).kstack) ∷ t.trace }) p (set_kstack 0) r ne

  stripped-trace :
      stripped.trace ≡ freevm ((t.procs p).pgdir) ∷ kfree ((t.procs p).kstack) ∷ t.trace
  unfolding stripped edited
  stripped-trace = refl

  stripped-IsOrdered : IsOrdered queue t → IsOrdered queue stripped
  unfolding stripped
  stripped-IsOrdered inv =
      edited-IsOrdered queue (record t { trace = kfree ((t.procs p).kstack) ∷ t.trace }) p
        (set_kstack 0) (ap₂ slot_of (kstack-state 0 (t.procs p)) (kstack-priority 0 (t.procs p)))
        (subst (λ m. m ≤ max_priority) (sym (kstack-priority 0 (t.procs p))) (inv.bounded p)) inv

  reap_run :
      (l l' : Lists)
      → InTable p
      → (stripped.procs p).state ≡ zombie
      → remove_from_state_list Slot.zombie p stripped.lists ≡ ok success l
      → add_to_state_list_head Slot.free p l ≡ ok success l'
      → reap p t ≡ ok ((t.procs p).pid) (edited (moved l') p wipe)
  unfolding reap stripped edited
  reap_run l l' h st run run' = rw (assert_state-ok p zombie stripped h st, run, run') refl

wipe-home : (q : Proc) → home (wipe q) ≡ home q
unfolding wipe
wipe-home q = refl

wipe-priority : (q : Proc) → (wipe q).priority ≡ q.priority
unfolding wipe
wipe-priority q = refl

pub reap_lem :
    (queue : Slot → List Ptr) (t : Table) (p : Ptr)
    → IsOrdered queue t
    → InTable p
    → (t.procs p).state ≡ zombie
    → (t' : Table) × (reap p t ≡ ok ((t.procs p).pid) t')
      × IsOrdered (stacked queue p Slot.zombie Slot.free) t'
      × (t'.procs p ≡ reaped (t.procs p))
      × ((r : Ptr) → r ≢ p → t'.procs r ≡ t.procs r)
      × (t'.trace ≡ freevm ((t.procs p).pgdir) ∷ kfree ((t.procs p).kstack) ∷ t.trace)
reap_lem queue t p inv h st =
    let t1 = stripped queue t p in
    let self1 = stripped_self queue t p in
    let st1 : (t1.procs p).state ≡ zombie =
      ap {A = Proc} {B = ProcState} (λ q. q.state) self1 ∙ kstack-state 0 (t.procs p) ∙ st in
    let (l, l', run, run', inv') =
      stack_step queue t1.procs t1.lists p Slot.zombie Slot.free unused
        (stripped-IsOrdered queue t p inv) h (ap (λ s. slot_of s ((t1.procs p).priority)) st1)
        refl in
    let t2 = moved queue t p l' in
    (
      edited t2 p wipe,
      reap_run queue t p l l' h st1 run run',
      edited-IsOrdered _ t2 p wipe (wipe-home (t2.procs p))
          (subst (λ m. m ≤ max_priority) (sym (wipe-priority (t2.procs p))) (inv'.bounded p)) inv',
      edited_self t2 p wipe
          ∙ ap wipe
              (put_self t1.procs p (set_state unused (t1.procs p)) ∙ ap (set_state unused) self1)
          ∙ reaped_lem (t.procs p),
      (λ r ne.
          edited_ne t2 p wipe r ne
          ∙ put_ne t1.procs p (set_state unused (t1.procs p)) r ne
          ∙ stripped_ne queue t p r ne),
      edited-trace t2 p wipe ∙ stripped-trace queue t p,
    )
