-- ===== src/Proc/Alloc/Child.antt =====
-- The last step of fork(): the embryo becomes runnable; and what fork() undoes where there is no
-- memory for the child.
use fp_sisop20_b.Prelude.{ℕ, ◌≡◌, ◌≢◌, refl, sym, ap, ap₂, subst, ◌∙◌, List, ◌∷◌, ◌≤◌}
use fp_sisop20_b.Run.{ok}
use fp_sisop20_b.StateList.{
  Ptr, Slot, ready, Lists, success, max_priority, add_to_state_list_head, add_to_state_list_end,
  remove_from_state_list,
}
use fp_sisop20_b.Proc.{Proc, ProcState, unused, embryo, runnable, kfree, Table, put, set_state}
use fp_sisop20_b.Proc.Invariant.{InTable, slot_of, home, IsOrdered}
use fp_sisop20_b.Proc.Steps.{put_self, put_ne}
use fp_sisop20_b.Proc.Requeue.{
  assert_state-ok, set_state-state, set_state-priority, requeued, requeue_step, stack_step,
}
use fp_sisop20_b.Proc.Edits.{edited, edited_self, edited_ne, edited-trace, edited-IsOrdered}
use fp_sisop20_b.Proc.Alloc.{ready_child, abort_fork, set_kstack}
use fp_sisop20_b.Proc.Alloc.Hatch.{Restated}

abbrev readied : Table → Ptr → Lists → Table
readied t p l = record t { procs = put t.procs p (set_state runnable (t.procs p)); lists = l }

ready_run :
    (t : Table) (p i : ℕ) (l l' : Lists)
    → InTable p
    → (t.procs p).state ≡ embryo
    → (put t.procs p (set_state runnable (t.procs p)) p).priority ≡ i
    → remove_from_state_list Slot.embryo p t.lists ≡ ok success l
    → add_to_state_list_end (ready i) p l ≡ ok success l'
    → ready_child p t ≡ ok tt (readied t p l')
unfolding ready_child
ready_run t p i l l' h st e run run' = rw (assert_state-ok p embryo t h st, run, e, run') refl

-- The new process goes behind the last one of the ready list of its priority.
pub ready_child_lem :
    (queue : Slot → List Ptr) (t : Table) (p i : ℕ)
    → IsOrdered queue t
    → InTable p
    → (t.procs p).state ≡ embryo
    → (t.procs p).priority ≡ i
    → (t' : Table) × (ready_child p t ≡ ok tt t')
      × IsOrdered (requeued queue p Slot.embryo (ready i)) t'
      × (t'.procs p ≡ set_state runnable (t.procs p))
      × ((r : Ptr) → r ≢ p → t'.procs r ≡ t.procs r)
      × (t'.trace ≡ t.trace)
ready_child_lem queue t p i inv h st e =
    let self = put_self t.procs p (set_state runnable (t.procs p)) in
    let same = put_ne t.procs p (set_state runnable (t.procs p)) in
    let pr : (put t.procs p (set_state runnable (t.procs p)) p).priority ≡ i =
      ap {A = Proc} {B = ℕ} (λ q. q.priority) self ∙ set_state-priority runnable (t.procs p) ∙ e in
    let there : home (put t.procs p (set_state runnable (t.procs p)) p) ≡ ready i =
      ap home self
      ∙ ap₂ slot_of (set_state-state runnable (t.procs p))
          (set_state-priority runnable (t.procs p) ∙ e) in
    let small : i ≤ max_priority = subst (λ m. m ≤ max_priority) e (inv.bounded p) in
    let (l, l', run, run', inv') =
      requeue_step queue t.procs (put t.procs p (set_state runnable (t.procs p))) t.lists p
        Slot.embryo (ready i) inv h (ap (λ s. slot_of s ((t.procs p).priority)) st) there same
        (subst (λ m. m ≤ max_priority) (sym pr) small) in
    (readied t p l', ready_run t p i l l' h st pr run run', inv', self, same, refl)

-- The table with the page given back.
abbrev pub unpaged : Table → Ptr → Table
unpaged t p = edited (record t { trace = kfree ((t.procs p).kstack) ∷ t.trace }) p (set_kstack 0)

abort_run :
    (t : Table) (p : Ptr) (l l' : Lists)
    → InTable p
    → ((unpaged t p).procs p).state ≡ embryo
    → remove_from_state_list Slot.embryo p ((unpaged t p).lists) ≡ ok success l
    → add_to_state_list_head Slot.free p l ≡ ok success l'
    → abort_fork p t
      ≡ ok tt (record (unpaged t p) {
        procs = put ((unpaged t p).procs) p (set_state unused ((unpaged t p).procs p));
        lists = l';
      })
unfolding abort_fork edited
abort_run t p l l' h st run run' = rw (assert_state-ok p embryo (unpaged t p) h st, run, run') refl

pub kstack-state : (page : ℕ) (q : Proc) → (set_kstack page q).state ≡ q.state
unfolding set_kstack
kstack-state page q = refl

pub kstack-priority : (page : ℕ) (q : Proc) → (set_kstack page q).priority ≡ q.priority
unfolding set_kstack
kstack-priority page q = refl

pub abort_fork_lem :
    (queue : Slot → List Ptr) (t : Table) (p : Ptr)
    → IsOrdered queue t
    → InTable p
    → (t.procs p).state ≡ embryo
    → (t' : Table) × (abort_fork p t ≡ ok tt t')
      × Restated queue t p Slot.embryo Slot.free (set_state unused (set_kstack 0 (t.procs p))) t'
      × (t'.trace ≡ kfree ((t.procs p).kstack) ∷ t.trace)
abort_fork_lem queue t p inv h st =
    let t0 = record t { trace = kfree ((t.procs p).kstack) ∷ t.trace } in
    let t1 = edited t0 p (set_kstack 0) in
    let self : t1.procs p ≡ set_kstack 0 (t.procs p) = edited_self t0 p (set_kstack 0) in
    let st1 : (t1.procs p).state ≡ embryo =
      ap {A = Proc} {B = ProcState} (λ q. q.state) self ∙ kstack-state 0 (t.procs p) ∙ st in
    let inv1 : IsOrdered queue t1 =
      edited-IsOrdered queue t0 p (set_kstack 0)
        (ap₂ slot_of (kstack-state 0 (t.procs p)) (kstack-priority 0 (t.procs p)))
        (subst (λ m. m ≤ max_priority) (sym (kstack-priority 0 (t.procs p))) (inv.bounded p)) inv in
    let (l, l', run, run', inv') =
      stack_step queue t1.procs t1.lists p Slot.embryo Slot.free unused inv1 h
        (ap (λ s. slot_of s ((t1.procs p).priority)) st1) refl in
    (
      record t1 { procs = put t1.procs p (set_state unused (t1.procs p)); lists = l' },
      abort_run t p l l' h st1 run run',
      record {
        ordered = inv';
        self = put_self t1.procs p _ ∙ ap (set_state unused) self;
        same = λ r ne. put_ne t1.procs p _ r ne ∙ edited_ne t0 p (set_kstack 0) r ne;
      },
      edited-trace t0 p (set_kstack 0),
    )
