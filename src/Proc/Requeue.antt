-- ===== src/Proc/Requeue.antt =====
-- A process changes its state: it leaves one list, and goes to the end of another.
use fp_sisop20_b.Prelude.{◌≤◌, ◌≡◌, ◌≢◌, refl, ap, ap₂, ◌∙◌, List, [], ◌∷◌, ◌++◌, arith}
use fp_sisop20_b.Run.{ok}
use fp_sisop20_b.StateList.{
  Ptr, Slot, Lists, success, max_priority, assign, add_to_state_list_head, add_to_state_list_end,
  remove_from_state_list,
}
use fp_sisop20_b.StateList.Chain.{erase}
use fp_sisop20_b.StateList.Single.{assign_self, assign_ne}
use fp_sisop20_b.Proc.{ProcState, Proc, Table, put, assert_state, set_state}
use fp_sisop20_b.Proc.Invariant.{InTable, slot_of, home, Inv}
use fp_sisop20_b.Proc.Steps.{
  remove_step, add_end_step, add_head_step, Inv-edit_out, put_self, put_ne,
}

pub assert_state-ok :
    (p : Ptr) (st : ProcState) (t : Table)
    → InTable p
    → (t.procs p).state ≡ st
    → assert_state p st t ≡ ok tt t
unfolding assert_state
assert_state-ok p st t h e = ground arith

pub set_state-state : (st : ProcState) (q : Proc) → (set_state st q).state ≡ st
unfolding set_state
set_state-state st q = refl

pub set_state-priority : (st : ProcState) (q : Proc) → (set_state st q).priority ≡ q.priority
unfolding set_state
set_state-priority st q = refl

-- The lists when process `p` has gone from one to the end of another.
abbrev pub requeued : (Slot → List Ptr) → Ptr → Slot → Slot → Slot → List Ptr
requeued queue p from to =
    let left = assign queue from (erase p (queue from)) in assign left to (left to ++ p ∷ [])

-- A process leaves its list, changes, and goes to the end of its new home.
pub requeue_step :
    (queue : Slot → List Ptr) (procs procs' : Ptr → Proc) (lists : Lists) (p : Ptr) (from to : Slot)
    → Inv queue 0 procs lists
    → InTable p
    → home (procs p) ≡ from
    → home (procs' p) ≡ to
    → ((r : Ptr) → r ≢ p → procs' r ≡ procs r)
    → (procs' p).priority ≤ max_priority
    → (l l' : Lists) × (remove_from_state_list from p lists ≡ ok success l)
      × (add_to_state_list_end to p l ≡ ok success l')
      × Inv (requeued queue p from to) 0 procs' l'
requeue_step queue procs procs' lists p from to inv h at at' same small =
    let (l, run, inv1) = remove_step queue procs lists from p inv h at in
    let inv2 =
      Inv-edit_out (assign queue from (erase p (queue from))) procs procs' l p inv1 same small in
    let (l', run', inv3) = add_end_step _ procs' l to p inv2 h at' in (l, l', run, run', inv3)

-- The lists when process `p` has gone from one to the head of another.
abbrev pub stacked : (Slot → List Ptr) → Ptr → Slot → Slot → Slot → List Ptr
stacked queue p from to =
    let left = assign queue from (erase p (queue from)) in assign left to (p ∷ left to)

-- A process leaves its list, gets another state, and goes to the head of its new home.
pub stack_step :
    (queue : Slot → List Ptr) (procs : Ptr → Proc) (lists : Lists) (p : Ptr) (from to : Slot)
    (st : ProcState)
    → Inv queue 0 procs lists
    → InTable p
    → home (procs p) ≡ from
    → slot_of st ((procs p).priority) ≡ to
    → (l l' : Lists) × (remove_from_state_list from p lists ≡ ok success l)
      × (add_to_state_list_head to p l ≡ ok success l')
      × Inv (stacked queue p from to) 0 (put procs p (set_state st (procs p))) l'
stack_step queue procs lists p from to st inv h at at' =
    let procs' = put procs p (set_state st (procs p)) in
    let (l, run, inv1) = remove_step queue procs lists from p inv h at in
    let e : procs' p ≡ set_state st (procs p) = put_self procs p (set_state st (procs p)) in
    let inv2 =
      Inv-edit_out (assign queue from (erase p (queue from))) procs procs' l p inv1
        (put_ne procs p (set_state st (procs p))) (rw (e, set_state-priority) (inv.bounded p)) in
    let there : home (procs' p) ≡ to =
      ap home e
      ∙ ap₂ slot_of (set_state-state st (procs p)) (set_state-priority st (procs p))
      ∙ at' in
    let (l', run', inv3) = add_head_step _ procs' l to p inv2 h there in (l, l', run, run', inv3)

module _ (queue : Slot → List Ptr) (p : Ptr) (from to : Slot) where
  pub stacked_to : to ≢ from → stacked queue p from to to ≡ p ∷ queue to
  stacked_to ne =
      assign_self (assign queue from (erase p (queue from))) to _
      ∙ ap (λ xs. p ∷ xs) (assign_ne queue from _ to ne)

  pub stacked_from : from ≢ to → stacked queue p from to from ≡ erase p (queue from)
  stacked_from ne =
      assign_ne (assign queue from (erase p (queue from))) to _ from ne ∙ assign_self queue from _

  pub stacked_ne : (k : Slot) → k ≢ from → k ≢ to → stacked queue p from to k ≡ queue k
  stacked_ne k ne ne' =
      assign_ne (assign queue from (erase p (queue from))) to _ k ne' ∙ assign_ne queue from _ k ne
