-- ===== src/Proc/Sleep/SetPriority.antt =====
-- setpriority(): which process it reaches, and where that process goes.
use fp_sisop20_b.Prelude.{
  ℕ, ◌≤◌, ◌≡◌, ◌≢◌, refl, sym, ap, subst, ◌∙◌, ◌⊎◌, inl, inr, Bool, true, false, List, [], ◌∷◌,
  arith, ◌==◌, ==→eq, ==_ne, ==_refl,
}
use fp_sisop20_b.Run.{ok}
use fp_sisop20_b.StateList.{
  Ptr, Slot, ready, Lists, success, failure, max_priority, add_to_state_list_end,
  remove_from_state_list,
}
use fp_sisop20_b.StateList.Chain.{has}
use fp_sisop20_b.Proc.{
  Proc, ProcState, unused, embryo, sleeping, runnable, running, zombie, Table, put, find_in,
  ready_slots, code,
}
use fp_sisop20_b.Proc.Invariant.{InTable, slot_of, IsOrdered}
use fp_sisop20_b.Proc.Steps.{put_self}
use fp_sisop20_b.Proc.Requeue.{requeue_step}
use fp_sisop20_b.Proc.Homes.{is_active, home-ready}
use fp_sisop20_b.Proc.Find.{OneOf, Found, hit, miss, find_in-Found}
use fp_sisop20_b.Proc.Sleep.{setpriority_table, set_priority}
use fp_sisop20_b.Proc.Sleep.Reset.{
  set_priority-priority, reset-priority, Reset, ready-home, elsewhere, elsewhere-state, ready_index,
  ready-OneOf, twice-Inv, twice, twice_self, twice-same,
}

module _ (t : Table) (queue : Slot → List Ptr) (inv : IsOrdered queue t) where
  -- A process that no search finds is not active.
  inactive :
      (q : Ptr) (st : ProcState)
      → (t.procs q).state ≡ st
      → InTable q
      → ((k : Slot) → OneOf k ready_slots → has q (queue k) ≡ true → ⊥)
      → ((k : Slot) → OneOf k elsewhere → has q (queue k) ≡ true → ⊥)
      → is_active ((t.procs q).state) ≡ false
  inactive q unused e h none_ready none_else = rw e
  inactive q embryo e h none_ready none_else = rw e
  inactive q zombie e h none_ready none_else = rw e
  inactive q sleeping e h none_ready none_else = absurd (
      none_else Slot.sleep (inr (inl refl)) (
        subst (λ s. has q (queue (slot_of s ((t.procs q).priority))) ≡ true) e
          (inv.complete q h (λ z. omega arith))))
  inactive q running e h none_ready none_else = absurd (
      none_else Slot.running (inl refl) (
        subst (λ s. has q (queue (slot_of s ((t.procs q).priority))) ≡ true) e
          (inv.complete q h (λ z. omega arith))))
  inactive q runnable e h none_ready none_else = absurd (
      none_ready (ready ((t.procs q).priority)) (ready-OneOf _ (inv.bounded q)) (
        subst (λ s. has q (queue (slot_of s ((t.procs q).priority))) ≡ true) e
          (inv.complete q h (λ z. omega arith))))

module _ (queue : Slot → List Ptr) (t : Table) (pid n : ℕ) (inv : IsOrdered queue t)
    (small : n ≤ max_priority) where
  abbrev matches : Proc → Bool
  matches q = q.pid == pid

  move_run :
      (p : Ptr) (l l' : Lists)
      → p ≢ 0
      → find_in ready_slots matches t ≡ ok p t
      → remove_from_state_list (ready ((t.procs p).priority)) p t.lists ≡ ok success l
      → add_to_state_list_end (ready ((put t.procs p (set_priority n (t.procs p)) p).priority)) p l
        ≡ ok success l'
      → setpriority_table pid n t ≡ ok success (record t { procs = twice t p n; lists = l' })
  unfolding setpriority_table twice
  move_run p l l' ne found run run' = rw (found, ==_ne ne, run, run') refl

  stay_run :
      (p : Ptr)
      → p ≢ 0
      → find_in ready_slots matches t ≡ ok 0 t
      → find_in (Slot.running ∷ Slot.sleep ∷ []) matches t ≡ ok p t
      → setpriority_table pid n t ≡ ok success (record t { procs = twice t p n })
  unfolding setpriority_table twice
  stay_run p ne none_ready found = rw (none_ready, found, ==_ne ne) refl

  nobody_run :
      find_in ready_slots matches t ≡ ok 0 t
      → find_in (Slot.running ∷ Slot.sleep ∷ []) matches t ≡ ok 0 t
      → setpriority_table pid n t ≡ ok failure t
  unfolding setpriority_table
  nobody_run none_ready none_else = rw (none_ready, none_else) refl

  abbrev Outcome : Type 0
  Outcome =
      ((setpriority_table pid n t ≡ ok failure t)
        × ((q : Ptr) → InTable q → (t.procs q).pid ≡ pid → is_active ((t.procs q).state) ≡ false))
      ⊎ ((p : Ptr) × (t' : Table) × (setpriority_table pid n t ≡ ok success t')
          × Reset queue t pid n p t')

  written-priority : (p : Ptr) → n ≡ (put t.procs p (set_priority n (t.procs p)) p).priority
  written-priority p = sym (
      ap (λ q. q.priority) (put_self t.procs p (set_priority n (t.procs p)))
      ∙ set_priority-priority n (t.procs p))

  move_case :
      (p i : ℕ)
      → find_in ready_slots matches t ≡ ok p t
      → has p (queue (ready i)) ≡ true
      → matches (t.procs p) ≡ true
      → p ≢ 0
      → Outcome
  move_case p i found on is ne =
      let h = inv.within (ready i) p on in
      let st = home-ready (t.procs p) i (inv.at_home (ready i) p on) in
      let (l, l', run, run', inv') =
        requeue_step queue t.procs (twice t p n) t.lists p (ready ((t.procs p).priority)) (ready n)
          inv h (ap (λ s. slot_of s ((t.procs p).priority)) st)
          (rw (twice_self t p n) (ready-home n (t.procs p) st)) (twice-same t p n)
          (rw (twice_self t p n, reset-priority) small) in
      let run'' =
        subst (λ m. add_to_state_list_end (ready m) p l ≡ ok success l') (written-priority p)
          run' in
      let moves : (code ((t.procs p).state) == code runnable) ≡ true = rw st in
      inr (
        p,
        record t { procs = twice t p n; lists = l' },
        move_run p l l' ne found run run'',
        record {
          in_table = h;
          has_pid = ==→eq _ _ is;
          active = rw st;
          changed = twice_self t p n;
          same = twice-same t p n;
          ordered = rw moves inv';
          quiet = refl;
        },
      )

  stay_case :
      (p : Ptr) (k : Slot)
      → find_in ready_slots matches t ≡ ok 0 t
      → find_in elsewhere matches t ≡ ok p t
      → OneOf k elsewhere
      → has p (queue k) ≡ true
      → matches (t.procs p) ≡ true
      → p ≢ 0
      → Outcome
  stay_case p k none_ready found o on is ne =
      let (stays, acts) = elsewhere-state (t.procs p) k o (inv.at_home k p on) in
      inr (
        p,
        record t { procs = twice t p n },
        stay_run p ne none_ready found,
        record {
          in_table = inv.within k p on;
          has_pid = ==→eq _ _ is;
          active = acts;
          changed = twice_self t p n;
          same = twice-same t p n;
          ordered = rw stays (twice-Inv t p n queue inv small stays);
          quiet = refl;
        },
      )

  other_case :
      (p : Ptr)
      → find_in ready_slots matches t ≡ ok 0 t
      → ((k : Slot) (q : Ptr)
          → OneOf k ready_slots
          → has q (queue k) ≡ true
          → matches (t.procs q) ≡ false)
      → find_in elsewhere matches t ≡ ok p t
      → Found queue (λ q. matches (t.procs q)) elsewhere p
      → Outcome
  other_case p none_ready quiet found (hit k o on is ne) = stay_case p k none_ready found o on is ne
  other_case p none_ready quiet found (miss null quiet') = inl (
    nobody_run none_ready (subst (λ r. find_in elsewhere matches t ≡ ok r t) null found),
    λ q h is.
        inactive t queue inv q ((t.procs q).state) refl h
          (λ k o on.
            let off : matches (t.procs q) ≡ false = quiet k q o on in
            let yes_ : matches (t.procs q) ≡ true = rw is (==_refl pid) in cc)
          (λ k o on.
            let off : matches (t.procs q) ≡ false = quiet' k q o on in
            let yes_ : matches (t.procs q) ≡ true = rw is (==_refl pid) in cc),
  )

  outcome : Outcome
  outcome =
      let (p, found, result) =
        find_in-Found queue t inv matches ready_slots (refl, (refl, (refl, tt))) in
      let (p', found', result') = find_in-Found queue t inv matches elsewhere (refl, (refl, tt)) in
      elim result [
        | hit k o on is ne ↦
            let (i, e) = ready_index k o in
            move_case p i found (subst (λ j. has p (queue j) ≡ true) e on) is ne
        | miss null quiet ↦
            other_case p' (subst (λ r. find_in ready_slots matches t ≡ ok r t) null found) quiet
              found' result'
      ]

-- setpriority() with a priority in range reaches an active process with the pid exactly if there is
-- one: the process gets the priority and a full budget, and a runnable one goes to the end of its
-- new ready list. Otherwise it returns -1 and changes nothing. The table stays in order.
pub setpriority_table_lem :
    (queue : Slot → List Ptr) (t : Table) (pid n : ℕ)
    → IsOrdered queue t
    → n ≤ max_priority
    → ((setpriority_table pid n t ≡ ok failure t)
        × ((q : Ptr) → InTable q → (t.procs q).pid ≡ pid → is_active ((t.procs q).state) ≡ false))
      ⊎ ((p : Ptr) × (t' : Table) × (setpriority_table pid n t ≡ ok success t')
          × Reset queue t pid n p t')
setpriority_table_lem queue t pid n inv small = outcome queue t pid n inv small
