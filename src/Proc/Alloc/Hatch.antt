-- ===== src/Proc/Alloc/Hatch.antt =====
-- A process goes from the free list to the embryos, and back.
use fp_sisop20_b.Prelude.{◌≡◌, ◌≢◌, refl, ap, List}
use fp_sisop20_b.Run.{ok}
use fp_sisop20_b.StateList.{
  Ptr, Slot, Lists, success, add_to_state_list_head, remove_from_state_list,
}
use fp_sisop20_b.Proc.{Proc, ProcState, unused, embryo, Table, put, set_state}
use fp_sisop20_b.Proc.Invariant.{InTable, slot_of, home, IsOrdered}
use fp_sisop20_b.Proc.Steps.{put_self, put_ne}
use fp_sisop20_b.Proc.Requeue.{assert_state-ok, stacked, stack_step}
use fp_sisop20_b.Proc.Alloc.{hatch, unhatch}

-- What each of the three does to the table: process `p` gets state `st`, and goes from one list to
-- the head of the other.
pub record Restated (queue : Slot → List Ptr) (t : Table) (p : Ptr) (from to : Slot) (q : Proc)
    (t' : Table) : Type 0 where
  pub ordered : IsOrdered (stacked queue p from to) t'
  pub self : t'.procs p ≡ q
  pub same : (r : Ptr) → r ≢ p → t'.procs r ≡ t.procs r

abbrev restated : Table → Ptr → ProcState → Lists → Table
restated t p st l = record t { procs = put t.procs p (set_state st (t.procs p)); lists = l }

module _ (t : Table) (p : Ptr) (l l' : Lists) (h : InTable p) where
  hatch_run :
      (t.procs p).state ≡ unused
      → remove_from_state_list Slot.free p t.lists ≡ ok success l
      → add_to_state_list_head Slot.embryo p l ≡ ok success l'
      → hatch p t ≡ ok tt (restated t p embryo l')
  unfolding hatch
  hatch_run st run run' = rw (assert_state-ok p unused t h st, run, run') refl

  unhatch_run :
      (t.procs p).state ≡ embryo
      → remove_from_state_list Slot.embryo p t.lists ≡ ok success l
      → add_to_state_list_head Slot.free p l ≡ ok success l'
      → unhatch p t ≡ ok tt (restated t p unused l')
  unfolding unhatch
  unhatch_run st run run' = rw (assert_state-ok p embryo t h st, run, run') refl

module _ (queue : Slot → List Ptr) (t : Table) (p : Ptr) (inv : IsOrdered queue t)
    (h : InTable p) where
  restated-Restated :
      (from to : Slot) (st : ProcState)
      → home (t.procs p) ≡ from
      → slot_of st ((t.procs p).priority) ≡ to
      → (l l' : Lists) × (remove_from_state_list from p t.lists ≡ ok success l)
        × (add_to_state_list_head to p l ≡ ok success l')
        × Restated queue t p from to (set_state st (t.procs p)) (restated t p st l')
  restated-Restated from to st at at' =
      let (l, l', run, run', inv') = stack_step queue t.procs t.lists p from to st inv h at at' in
      (
        l,
        l',
        run,
        run',
        record { ordered = inv'; self = put_self t.procs p _; same = put_ne t.procs p _ },
      )

  pub hatch_lem :
      (t.procs p).state ≡ unused
      → (t' : Table) × (hatch p t ≡ ok tt t')
        × Restated queue t p Slot.free Slot.embryo (set_state embryo (t.procs p)) t'
        × (t'.trace ≡ t.trace)
  hatch_lem st =
      let (l, l', run, run', w) =
        restated-Restated Slot.free Slot.embryo embryo
          (ap (λ s. slot_of s ((t.procs p).priority)) st) refl in
      (restated t p embryo l', hatch_run t p l l' h st run run', w, refl)

  pub unhatch_lem :
      (t.procs p).state ≡ embryo
      → (t' : Table) × (unhatch p t ≡ ok tt t')
        × Restated queue t p Slot.embryo Slot.free (set_state unused (t.procs p)) t'
        × (t'.trace ≡ t.trace)
  unhatch_lem st =
      let (l, l', run, run', w) =
        restated-Restated Slot.embryo Slot.free unused
          (ap (λ s. slot_of s ((t.procs p).priority)) st) refl in
      (restated t p unused l', unhatch_run t p l l' h st run run', w, refl)
