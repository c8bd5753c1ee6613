-- ===== src/Proc/Wait/Look.antt =====
-- A round of wait() as a whole.
use fp_sisop20_b.Prelude.{
  ℕ, ◌≡◌, ◌≢◌, refl, subst, ◌∙◌, ◌⊎◌, inl, inr, Bool, true, false, not, ◌||◌, List, [], ◌∷◌, ◌==◌,
  ==_ne, ==→eq, ==→ne, Bool-cases,
}
use fp_sisop20_b.Run.{ok}
use fp_sisop20_b.Spinlock.{Sync}
use fp_sisop20_b.Spinlock.Critical.{IsFree, taken, dropped, release-dropped}
use fp_sisop20_b.StateList.{Ptr, Slot}
use fp_sisop20_b.StateList.Chain.{has}
use fp_sisop20_b.Proc.{running, zombie, kfree, freevm, Table, State, find_in}
use fp_sisop20_b.Proc.Invariant.{InTable, IsOrdered}
use fp_sisop20_b.Proc.Homes.{is_active, home-zombie}
use fp_sisop20_b.Proc.Find.{Found, hit, miss, OneOf, find_in-Found}
use fp_sisop20_b.Proc.Requeue.{stacked}
use fp_sisop20_b.Proc.Alloc.{minus_one}
use fp_sisop20_b.Proc.Sleep.{sleep_locked}
use fp_sisop20_b.Proc.Sleep.Doze.{Asleep, sleep_locked_lem}
use fp_sisop20_b.Proc.Wait.{returned, asleep, reap, kid_slots, wait_round}
use fp_sisop20_b.Proc.Wait.Reap.{reaped, reap_lem}
use fp_sisop20_b.Proc.Wait.Search.{child_of, NoZombie, NoActive, no_zombie, no_active, found_active}

reap_case :
    (s : State) (y : Sync) (p : Ptr) (pid : ℕ) (t' : Table)
    → s.sync ≡ taken y
    → IsFree y
    → find_in (Slot.zombie ∷ []) (child_of s.current) s.table ≡ ok p s.table
    → p ≢ 0
    → reap p s.table ≡ ok pid t'
    → wait_round s ≡ ok (returned pid) (record s { table = t'; sync = dropped y })
unfolding wait_round
reap_case s y p pid t' held f found ne run =
    rw (found, ==_ne ne, run, held, release-dropped y f) refl

leave_case :
    (s : State) (y : Sync) (kid : Ptr)
    → s.sync ≡ taken y
    → IsFree y
    → find_in (Slot.zombie ∷ []) (child_of s.current) s.table ≡ ok 0 s.table
    → find_in kid_slots (child_of s.current) s.table ≡ ok kid s.table
    → (kid == 0 || not ((s.procs s.current).killed == 0)) ≡ true
    → wait_round s ≡ ok (returned minus_one) (record s { sync = dropped y })
unfolding wait_round
leave_case s y kid held f found found' test =
    rw (found, found', test, held, release-dropped y f) refl

stay_case :
    (s s' : State) (kid : Ptr) (i : Bool)
    → find_in (Slot.zombie ∷ []) (child_of s.current) s.table ≡ ok 0 s.table
    → find_in kid_slots (child_of s.current) s.table ≡ ok kid s.table
    → (kid == 0 || not ((s.procs s.current).killed == 0)) ≡ false
    → sleep_locked s.current s ≡ ok i s'
    → wait_round s ≡ ok (asleep i) s'
unfolding wait_round
stay_case s s' kid i found found' test run = rw (found, found', test, run) refl

-- What the three ends of a round are.
pub record Collected (queue : Slot → List Ptr) (s : State) (p : Ptr) (s' : State) : Type 0 where
  pub in_table : InTable p
  pub is_child : (s.procs p).parent ≡ s.current
  pub is_zombie : (s.procs p).state ≡ zombie
  pub ordered : IsOrdered (stacked queue p Slot.zombie Slot.free) s'.table
  pub self : s'.procs p ≡ reaped (s.procs p)
  pub others : (r : Ptr) → r ≢ p → s'.procs r ≡ s.procs r
  pub same_cpu : s'.current ≡ s.current
  pub trace : s'.trace ≡ freevm ((s.procs p).pgdir) ∷ kfree ((s.procs p).kstack) ∷ s.trace

abbrev pub Round : (Slot → List Ptr) → State → Sync → Type 0
Round queue s y =
    ((p : Ptr) × (s' : State) × (wait_round s ≡ ok (returned ((s.procs p).pid)) s')
      × Collected queue s p s'
      × (s'.sync ≡ dropped y))
    ⊎ (NoZombie s.current s.table
        × (NoActive s.current s.table ⊎ ((s.procs s.current).killed ≢ 0))
        × (wait_round s ≡ ok (returned minus_one) (record s { sync = dropped y })))
    ⊎ (NoZombie s.current s.table
        × ((q : Ptr) × ((s.procs q).parent ≡ s.current) × (is_active ((s.procs q).state) ≡ true))
        × ((s.procs s.current).killed ≡ 0)
        × (s' : State) × (wait_round s ≡ ok (asleep y.cpu.interrupts) s')
        × Asleep queue s s.current s'
        × (s'.sync ≡ s.sync))

module _ (queue : Slot → List Ptr) (s : State) (y : Sync) (inv : IsOrdered queue s.table)
    (held : s.sync ≡ taken y) (f : IsFree y) where
  collect :
      (p : Ptr)
      → find_in (Slot.zombie ∷ []) (child_of s.current) s.table ≡ ok p s.table
      → (k : Slot) → OneOf k (Slot.zombie ∷ [])
      → has p (queue k) ≡ true
      → child_of s.current (s.procs p) ≡ true
      → p ≢ 0
      → Round queue s y
  collect p found k (inl e) on is ne =
      let h = inv.within k p on in
      let st = home-zombie (s.procs p) (inv.at_home k p on ∙ e) in
      let (t', run, inv', self, same, trace) = reap_lem queue s.table p inv h st in
      inl (
        p,
        record s { table = t'; sync = dropped y },
        reap_case s y p ((s.procs p).pid) t' held f found ne run,
        record {
          in_table = h;
          is_child = ==→eq ((s.procs p).parent) s.current is;
          is_zombie = st;
          ordered = inv';
          self = self;
          others = same;
          same_cpu = refl;
          trace = trace;
        },
        refl,
      )
  collect p found k (inr o) on is ne = absurd o

  -- No zombie child: what the second search and the killed flag lead to.
  second :
      (kid : Ptr)
      → InTable s.current
      → (s.procs s.current).state ≡ running
      → y.cpu.ncli ≡ 0
      → find_in (Slot.zombie ∷ []) (child_of s.current) s.table ≡ ok 0 s.table
      → NoZombie s.current s.table
      → find_in kid_slots (child_of s.current) s.table ≡ ok kid s.table
      → Found queue (λ q. child_of s.current (s.procs q)) kid_slots kid
      → Round queue s y
  second kid h st n none quiet found (miss null quiet') = inr (
      inl (
        quiet,
        inl (no_active queue s.table s.current inv quiet'),
        leave_case s y kid held f none found (rw (null) refl),
      ))
  second kid h st n none quiet found (hit k o on is ne) =
      elim (Bool-cases ((s.procs s.current).killed == 0)) [
        | inl alive ↦
            let (s', run, w, locked) = sleep_locked_lem queue s s.current y inv h st held n in
            inr (
              inr (
                quiet,
                (
                  kid,
                  ==→eq ((s.procs kid).parent) s.current is,
                  found_active queue s.table s.current inv k kid o on,
                ),
                ==→eq ((s.procs s.current).killed) 0 alive,
                s',
                stay_case s s' kid y.cpu.interrupts none found (rw (==_ne ne, alive) refl) run,
                w,
                locked,
              ))
        | inr dead ↦ inr (
            inl (
              quiet,
              inr (==→ne ((s.procs s.current).killed) 0 dead),
              leave_case s y kid held f none found (rw (==_ne ne, dead) refl),
            ))
      ]

-- A round of wait() by a running process that holds the lock, on a table in order. Where there is a
-- zombie child, the round frees its stack and memory, puts it back at the head of the free list and
-- returns its pid. Where there is none, and no sleeping, runnable or running child either or the
-- caller is killed, it returns -1 and changes nothing. Otherwise, with such a child and the
-- caller not killed, the caller sleeps on itself with the lock held. In the first two cases the lock is given back.
pub wait_round_lem :
    (queue : Slot → List Ptr) (s : State) (y : Sync)
    → IsOrdered queue s.table
    → InTable s.current
    → (s.procs s.current).state ≡ running
    → s.sync ≡ taken y
    → IsFree y
    → y.cpu.ncli ≡ 0
    → Round queue s y
wait_round_lem queue s y inv h st held f n =
    let (p, found, result) =
      find_in-Found queue s.table inv (child_of s.current) (Slot.zombie ∷ []) (refl, tt) in
    let (kid, found', result') =
      find_in-Found queue s.table inv (child_of s.current) kid_slots
        (refl, (refl, (refl, (refl, (refl, tt))))) in
    elim result [
      | hit k o on is ne ↦ collect queue s y inv held f p found k o on is ne
      | miss null quiet ↦
          second queue s y inv held f kid h st n
            (subst (λ r. find_in (Slot.zombie ∷ []) (child_of s.current) s.table ≡ ok r s.table)
              null found)
            (no_zombie queue s.table s.current inv quiet) found' result'
    ]
