-- ===== src/Proc/Sleep/Kill.antt =====
-- kill(): which process it reaches, and what it does to it.
use fp_sisop20_b.Prelude.{
  ℕ, ◌≡◌, ◌≢◌, refl, ap, subst, ◌∙◌, ◌⊎◌, inl, inr, Bool, true, false, List, [], ◌∷◌, arith, ◌==◌,
  ==→eq, ==→ne, ==_ne, Bool-cases,
}
use fp_sisop20_b.Run.{ok}
use fp_sisop20_b.StateList.{
  Ptr, Slot, ready, Lists, success, failure, add_to_state_list_end, remove_from_state_list,
}
use fp_sisop20_b.StateList.Chain.{has}
use fp_sisop20_b.Proc.{Proc, sleeping, runnable, Table, put, set_state, find_in, code}
use fp_sisop20_b.Proc.Invariant.{InTable, slot_of, home, Inv, IsOrdered}
use fp_sisop20_b.Proc.Steps.{Inv-put, put_self, put_ne, put-put_ne}
use fp_sisop20_b.Proc.Requeue.{assert_state-ok, set_state-state, set_state-priority, requeue_step}
use fp_sisop20_b.Proc.Homes.{home-sleep, code→sleeping, code_ne_sleeping}
use fp_sisop20_b.Proc.Find.{OneOf, Found, hit, miss, find_in-Found}
use fp_sisop20_b.Proc.Sleep.{kill_table}
use fp_sisop20_b.Proc.Sleep.Strike.{others, all_in_range, home-OneOf, killed, Nobody, Struck}

module _ (queue : Slot → List Ptr) (t : Table) (pid : ℕ) (inv : IsOrdered queue t) where
  abbrev matches : Proc → Bool
  matches q = q.pid == pid

  after_wake : Ptr → Lists → Table
  after_wake p l = record t {
    procs =
        put (put t.procs p (killed (t.procs p))) p
          (set_state runnable (put t.procs p (killed (t.procs p)) p));
    lists = l;
  }

  after_wake_self :
      (p : Ptr) (l : Lists) → (after_wake p l).procs p ≡ set_state runnable (killed (t.procs p))
  unfolding after_wake
  after_wake_self p l =
      put_self _ p _ ∙ ap (set_state runnable) (put_self t.procs p (killed (t.procs p)))

  after_wake-same : (p : Ptr) (l : Lists) (q : Ptr) → q ≢ p → (after_wake p l).procs q ≡ t.procs q
  unfolding after_wake
  after_wake-same p l = put-put_ne t.procs p (killed (t.procs p)) _

  after_wake-home :
      (p : Ptr) (l : Lists) → home ((after_wake p l).procs p) ≡ ready ((t.procs p).priority)
  after_wake-home p l = rw (after_wake_self p l, set_state-state, set_state-priority)

  after_wake-Inv :
      (p : Ptr) (l l' : Lists) (queue' : Slot → List Ptr)
      → Inv queue' 0 (after_wake p l).procs l'
      → IsOrdered queue' (after_wake p l')
  unfolding after_wake
  after_wake-Inv p l l' queue' i = i

  after_wake-trace : (p : Ptr) (l : Lists) → (after_wake p l).trace ≡ t.trace
  unfolding after_wake
  after_wake-trace p l = refl

  wake_run :
      (p : Ptr) (l l' : Lists)
      → InTable p
      → (t.procs p).state ≡ sleeping
      → find_in (Slot.sleep ∷ []) matches t ≡ ok p t
      → remove_from_state_list Slot.sleep p t.lists ≡ ok success l
      → add_to_state_list_end (ready ((t.procs p).priority)) p l ≡ ok success l'
      → kill_table pid t ≡ ok success (after_wake p l')
  unfolding kill_table after_wake
  wake_run p l l' h st found run run' =
      let marked = record t { procs = put t.procs p (killed (t.procs p)) } in
      let st' : (marked.procs p).state ≡ sleeping = rw put_self st in
      let ne : p ≢ 0 = λ e. omega arith in
      rw
        (
          found,
          ==_ne ne,
          assert_state-ok p sleeping marked h st',
          run,
          put_self,
          put_self,
          set_state-priority,
          run',
        )
        refl

  mark_run :
      (p : Ptr)
      → find_in (Slot.sleep ∷ []) matches t ≡ ok 0 t
      → find_in others matches t ≡ ok p t
      → p ≢ 0
      → kill_table pid t ≡ ok success (record t { procs = put t.procs p (killed (t.procs p)) })
  unfolding kill_table
  mark_run p none_asleep found ne = rw (none_asleep, found, ==_ne ne) refl

  abbrev Outcome : Type 0
  Outcome =
      ((kill_table pid t ≡ ok failure t) × Nobody t pid)
      ⊎ ((p : Ptr) × (t' : Table) × (kill_table pid t ≡ ok success t') × Struck queue t pid p t')

  wake_case :
      (p : Ptr)
      → find_in (Slot.sleep ∷ []) matches t ≡ ok p t
      → has p (queue Slot.sleep) ≡ true
      → matches (t.procs p) ≡ true
      → Outcome
  wake_case p found on is =
      let h = inv.within Slot.sleep p on in
      let st = home-sleep (t.procs p) (inv.at_home Slot.sleep p on) in
      let (l, l', run, run', inv') =
        requeue_step queue t.procs (after_wake p t.lists).procs t.lists p Slot.sleep
          (ready ((t.procs p).priority)) inv h (rw st) (after_wake-home p t.lists)
          (after_wake-same p t.lists)
          (rw (after_wake_self p t.lists, set_state-priority) (inv.bounded p)) in
      let asleep : (code ((t.procs p).state) == code sleeping) ≡ true = rw st in
      inr (
        p,
        after_wake p l',
        wake_run p l l' h st found run run',
        record {
          in_table = h;
          has_pid = ==→eq _ _ is;
          changed = rw asleep (after_wake_self p l');
          same = after_wake-same p l';
          ordered = rw asleep (after_wake-Inv p t.lists l' _ inv');
          quiet = after_wake-trace p l';
        },
      )

  mark_case :
      (p : Ptr) (k : Slot)
      → find_in (Slot.sleep ∷ []) matches t ≡ ok 0 t
      → find_in others matches t ≡ ok p t
      → ((q : Ptr) → has q (queue Slot.sleep) ≡ true → matches (t.procs q) ≡ false)
      → has p (queue k) ≡ true
      → matches (t.procs p) ≡ true
      → p ≢ 0
      → Outcome
  mark_case p k none_asleep found quiet on is ne =
      let h = inv.within k p on in
      let awake : (t.procs p).state ≢ sleeping = λ e.
        let on' : has p (queue Slot.sleep) ≡ true =
          subst (λ st. has p (queue (slot_of st ((t.procs p).priority))) ≡ true) e
            (inv.complete p h ne) in
        let no = quiet p on' in cc in
      let plain = code_ne_sleeping _ awake in
      inr (
        p,
        record t { procs = put t.procs p (killed (t.procs p)) },
        mark_run p none_asleep found ne,
        record {
          in_table = h;
          has_pid = ==→eq _ _ is;
          changed = rw plain (put_self t.procs p (killed (t.procs p)));
          same = put_ne t.procs p (killed (t.procs p));
          ordered =
              rw plain
                (Inv-put queue 0 t.procs t.lists p (killed (t.procs p)) inv refl (inv.bounded p));
          quiet = refl;
        },
      )

  on_sleep :
      (k : Slot) (p : Ptr)
      → OneOf k (Slot.sleep ∷ [])
      → has p (queue k) ≡ true
      → has p (queue Slot.sleep) ≡ true
  on_sleep k p (inl e) on = subst (λ j. has p (queue j) ≡ true) e on
  on_sleep k p (inr o) on = elim o [ ]

  nobody_run :
      find_in (Slot.sleep ∷ []) matches t ≡ ok 0 t
      → find_in others matches t ≡ ok 0 t
      → kill_table pid t ≡ ok failure t
  unfolding kill_table
  nobody_run none_asleep none_else = rw (none_asleep, none_else)

  Nobody-matches :
      ((q : Ptr) → has q (queue Slot.sleep) ≡ true → matches (t.procs q) ≡ false)
      → ((k : Slot) (q : Ptr)
          → OneOf k others
          → has q (queue k) ≡ true
          → matches (t.procs q) ≡ false)
      → Nobody t pid
  Nobody-matches quiet quiet' q h =
      ==→ne _ _ (elim (Bool-cases (code ((t.procs q).state) == code sleeping)) [
        | inl asleep ↦ quiet q (
            subst (λ st. has q (queue (slot_of st ((t.procs q).priority))) ≡ true)
              (code→sleeping _ asleep) (inv.complete q h (λ e. omega arith)))
        | inr awake ↦
            let ne : (t.procs q).state ≢ sleeping =
              λ e. let same : (code ((t.procs q).state) == code sleeping) ≡ true = rw e in cc in
            quiet' (home (t.procs q)) q (home-OneOf (t.procs q) (inv.bounded q) ne)
              (inv.complete q h (λ e. omega arith))
      ])

  not_asleep :
      (p : Ptr)
      → find_in (Slot.sleep ∷ []) matches t ≡ ok 0 t
      → find_in others matches t ≡ ok p t
      → ((q : Ptr) → has q (queue Slot.sleep) ≡ true → matches (t.procs q) ≡ false)
      → Found queue (λ q. matches (t.procs q)) others p
      → Outcome
  not_asleep p none_asleep found quiet (hit k o on is ne) =
      mark_case p k none_asleep found quiet on is ne
  not_asleep p none_asleep found quiet (miss null quiet') = inl (
    nobody_run none_asleep (subst (λ r. find_in others matches t ≡ ok r t) null found),
    Nobody-matches quiet quiet',
  )

  outcome : Outcome
  outcome =
      let (p, found, result) = find_in-Found queue t inv matches (Slot.sleep ∷ []) (refl, tt) in
      let (p', found', result') = find_in-Found queue t inv matches others all_in_range in
      elim result [
        | hit k o on is ne ↦ wake_case p found (on_sleep k p o on) is
        | miss null quiet ↦
            not_asleep p' (subst (λ r. find_in (Slot.sleep ∷ []) matches t ≡ ok r t) null found)
              found' (λ q on. quiet Slot.sleep q (inl refl) on) result'
      ]

-- kill() reaches a process of the table with the pid, on whatever list it is, exactly if there
-- is one: it sets `killed`, and makes the process runnable if it slept. Otherwise it returns -1
-- and changes nothing. The table stays in order.
pub kill_table_lem :
    (queue : Slot → List Ptr) (t : Table) (pid : ℕ)
    → IsOrdered queue t
    → ((kill_table pid t ≡ ok failure t) × Nobody t pid)
      ⊎ ((p : Ptr) × (t' : Table) × (kill_table pid t ≡ ok success t') × Struck queue t pid p t')
kill_table_lem queue t pid inv = outcome queue t pid inv
