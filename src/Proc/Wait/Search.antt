-- ===== src/Proc/Wait/Search.antt =====
-- What the two searches of wait() have seen when they find nothing.
use fp_sisop20_b.Prelude.{
  ℕ, zero, suc, ◌≤◌, ◌≡◌, ◌≢◌, refl, sym, ap, ap₂, ◌∙◌, inl, inr, Bool, true, false, List, [], ◌∷◌,
  arith, ◌==◌, ==→ne,
}
use fp_sisop20_b.StateList.{Ptr, Slot, max_priority}
use fp_sisop20_b.StateList.Chain.{has}
use fp_sisop20_b.Proc.{Proc, ProcState, unused, embryo, sleeping, runnable, running, zombie, Table}
use fp_sisop20_b.Proc.Invariant.{InTable, slot_of, home, IsOrdered}
use fp_sisop20_b.Proc.Homes.{is_active}
use fp_sisop20_b.Proc.Find.{OneOf}
use fp_sisop20_b.Proc.Wait.{kid_slots}

abbrev pub child_of : Ptr → Proc → Bool
child_of me q = q.parent == me

-- No process of the table is a zombie child of `me`; none is an active child.
abbrev pub NoZombie : Ptr → Table → Type 0
NoZombie me t = (q : Ptr) → InTable q → (t.procs q).parent ≡ me → (t.procs q).state ≢ zombie

abbrev pub NoActive : Ptr → Table → Type 0
NoActive me t =
    (q : Ptr) → InTable q → (t.procs q).parent ≡ me → is_active ((t.procs q).state) ≡ false

-- The second search leaves three lists out.
not_kid : (k : Slot) → OneOf k kid_slots → (k ≢ Slot.free) × (k ≢ Slot.embryo) × (k ≢ Slot.zombie)
not_kid k (inl e) = (λ d. cc, λ d. cc, λ d. cc)
not_kid k (inr (inl e)) = (λ d. cc, λ d. cc, λ d. cc)
not_kid k (inr (inr (inl e))) = (λ d. cc, λ d. cc, λ d. cc)
not_kid k (inr (inr (inr (inl e)))) = (λ d. cc, λ d. cc, λ d. cc)
not_kid k (inr (inr (inr (inr (inl e))))) = (λ d. cc, λ d. cc, λ d. cc)
not_kid k (inr (inr (inr (inr (inr o))))) = absurd o

module _ (queue : Slot → List Ptr) (t : Table) (me : Ptr) (inv : IsOrdered queue t) where
  -- A search that finds nothing has seen every process that is at home on its lists.
  unseen :
      (ks : List Slot)
      → ((k : Slot) (q : Ptr)
          → OneOf k ks
          → has q (queue k) ≡ true
          → child_of me (t.procs q) ≡ false)
      → (q : Ptr) → InTable q
      → (t.procs q).parent ≡ me
      → OneOf (home (t.procs q)) ks
      → ⊥
  unseen ks quiet q h e o =
      let off : child_of me (t.procs q) ≡ false =
        quiet (home (t.procs q)) q o (inv.complete q h (λ z. omega arith)) in
      ==→ne ((t.procs q).parent) me off e

  pub no_zombie :
      ((k : Slot) (q : Ptr)
        → OneOf k (Slot.zombie ∷ [])
        → has q (queue k) ≡ true
        → child_of me (t.procs q) ≡ false)
      → NoZombie me t
  no_zombie quiet q h e st =
      unseen (Slot.zombie ∷ []) quiet q h e (inl (ap (λ s. slot_of s ((t.procs q).priority)) st))

  pub no_active :
      ((k : Slot) (q : Ptr)
        → OneOf k kid_slots
        → has q (queue k) ≡ true
        → child_of me (t.procs q) ≡ false)
      → NoActive me t
  no_active quiet q h e = by_state (t.procs q).state (t.procs q).priority refl refl (inv.bounded q)
    where
      by_state :
          (st : ProcState) (i : ℕ)
          → (t.procs q).state ≡ st
          → (t.procs q).priority ≡ i
          → i ≤ max_priority
          → is_active st ≡ false
      by_state unused i est ei small = refl
      by_state embryo i est ei small = refl
      by_state zombie i est ei small = refl
      by_state running i est ei small =
          absurd (unseen kid_slots quiet q h e (inr (inr (inr (inl (ap₂ slot_of est ei))))))
      by_state sleeping i est ei small =
          absurd (unseen kid_slots quiet q h e (inr (inr (inr (inr (inl (ap₂ slot_of est ei)))))))
      by_state runnable zero est ei small =
          absurd (unseen kid_slots quiet q h e (inl (ap₂ slot_of est ei)))
      by_state runnable (suc zero) est ei small =
          absurd (unseen kid_slots quiet q h e (inr (inl (ap₂ slot_of est ei))))
      by_state runnable (suc (suc zero)) est ei small =
          absurd (unseen kid_slots quiet q h e (inr (inr (inl (ap₂ slot_of est ei)))))
      by_state runnable (suc (suc (suc i))) est ei small = absurd (omega arith)

  -- A process that the second search finds is active.
  pub found_active :
      (k : Slot) (q : Ptr)
      → OneOf k kid_slots
      → has q (queue k) ≡ true
      → is_active ((t.procs q).state) ≡ true
  found_active k q o on = by_state (t.procs q).state refl
    where
      by_state : (st : ProcState) → (t.procs q).state ≡ st → is_active st ≡ true
      by_state unused e = absurd (
          (not_kid k o).0 (sym (inv.at_home k q on) ∙ ap (λ s. slot_of s ((t.procs q).priority)) e))
      by_state embryo e = absurd (
          (not_kid k o).1 (sym (inv.at_home k q on) ∙ ap (λ s. slot_of s ((t.procs q).priority)) e))
      by_state zombie e = absurd (
          (not_kid k o).2 (sym (inv.at_home k q on) ∙ ap (λ s. slot_of s ((t.procs q).priority)) e))
      by_state sleeping e = refl
      by_state runnable e = refl
      by_state running e = refl
