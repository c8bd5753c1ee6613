-- ===== src/Proc/Sleep/Wakeup.antt =====
-- wakeup1(): every process that sleeps on the channel becomes runnable, and no other changes.
use fp_sisop20_b.Prelude.{
  ℕ, zero, suc, ◌+◌, ◌≤◌, ◌<◌, ◌≡◌, ◌≢◌, refl, sym, ap, subst, fun_ext, ◌∙◌, inl, inr, true, false,
  not, ◌&&◌, List, [], ◌∷◌, ◌++◌, arith, ◌==◌, ==→eq, if◌then◌else◌, Bool-cases, length, append-nil,
}
use fp_sisop20_b.Run.{ok}
use fp_sisop20_b.StateList.{
  Ptr, Slot, ready, Lists, success, nproc, load_head, add_to_state_list_end, remove_from_state_list,
}
use fp_sisop20_b.StateList.Chain.{
  head, Chain-next, Chain-head, has, has-append, Distinct, Chain, erase,
}
use fp_sisop20_b.StateList.Keep.{keep, erase-append, Distinct-middle, snoc-append}
use fp_sisop20_b.Proc.{Proc, sleeping, runnable, Table, code, put, set_state}
use fp_sisop20_b.Proc.Invariant.{InTable, slot_of, IsOrdered}
use fp_sisop20_b.Proc.Moves.{length-queue-le}
use fp_sisop20_b.Proc.Steps.{put_self, put_ne}
use fp_sisop20_b.Proc.Requeue.{set_state-state, set_state-priority, requeue_step}
use fp_sisop20_b.Proc.Sleep.{wakeup1, wakeup_loop}
use fp_sisop20_b.Proc.Homes.{home-sleep, code_ne_sleeping}
use fp_sisop20_b.Proc.Sleep.Rouse.{
  on_chan, Woken, roused, skip_run, rouse_run, Woken-skip, moved, moved-sleep, Woken-rouse,
}

-- What the invariant says of a process in the middle of the sleep list.
record Sleeper (t : Table) (front : List Ptr) (y : Ptr) (ys : List Ptr) : Type 0 where
  in_table : InTable y
  asleep : (t.procs y).state ≡ sleeping
  next : t.lists.next y ≡ head ys
  ne_null : y ≢ 0
  not_before : has y front ≡ false
  not_behind : has y ys ≡ false

sleeper :
    (queue : Slot → List Ptr) (t : Table) (front : List Ptr) (y : Ptr) (ys : List Ptr)
    → IsOrdered queue t
    → queue Slot.sleep ≡ front ++ y ∷ ys
    → Sleeper t front y ys
sleeper queue t front y ys inv e =
    let on : has y (queue Slot.sleep) ≡ true = rw e (ground (arith, has-append y front (y ∷ ys))) in
    let d = Distinct-middle front y ys (subst Distinct e (inv.distinct Slot.sleep)) in
    let c =
      Chain-next t.lists.next (t.lists.head Slot.sleep) front y ys
        (subst (Chain t.lists.next (t.lists.head Slot.sleep)) e (inv.chain Slot.sleep)) in
    record {
      in_table = inv.within Slot.sleep y on;
      asleep = home-sleep (t.procs y) (inv.at_home Slot.sleep y on);
      next = c.0;
      ne_null = c.1;
      not_before = d.0;
      not_behind = d.1;
    }

-- A process of the sleep list becomes runnable and goes to its ready list.
rouse_step :
    (queue : Slot → List Ptr) (t : Table) (y : Ptr)
    → IsOrdered queue t
    → InTable y
    → (t.procs y).state ≡ sleeping
    → (l l' : Lists) × (remove_from_state_list Slot.sleep y t.lists ≡ ok success l)
      × (add_to_state_list_end (ready ((t.procs y).priority)) y l ≡ ok success l')
      × IsOrdered (moved queue y ((t.procs y).priority)) (roused t y l')
rouse_step queue t y inv h st =
    requeue_step queue t.procs (put t.procs y (set_state runnable (t.procs y))) t.lists y Slot.sleep
      (ready ((t.procs y).priority)) inv h (rw st)
      (rw (put_self, set_state-state, set_state-priority))
      (put_ne t.procs y (set_state runnable (t.procs y)))
      (rw (put_self, set_state-priority) (inv.bounded y))

wakeup_loop-null : (n chan : ℕ) (t : Table) → wakeup_loop (suc n) chan 0 t ≡ ok tt t
unfolding wakeup_loop
wakeup_loop-null n chan t = refl

-- From the first process of `ys` on, the loop wakes those of `ys` that sleep on the channel.
wakeup_loop-Woken :
    (n chan : ℕ) (queue : Slot → List Ptr) (t : Table) (front ys : List Ptr)
    → IsOrdered queue t
    → queue Slot.sleep ≡ front ++ ys
    → length ys < n
    → (queue' : Slot → List Ptr) × (t' : Table) × (wakeup_loop n chan (head ys) t ≡ ok tt t')
      × Woken queue t chan front ys queue' t'
wakeup_loop-Woken zero chan queue t front ys inv e h = absurd (omega arith)
wakeup_loop-Woken (suc n) chan queue t front [] inv e h = (
  queue,
  t,
  wakeup_loop-null n chan t,
  record {
    ordered = inv;
    procs = λ q. refl;
    quiet = refl;
    asleep = e;
    readied = λ i. rw append-nil refl;
    elsewhere = λ k ne nr. refl;
  },
)
wakeup_loop-Woken (suc n) chan queue t front (y ∷ ys) inv e h =
    let at = sleeper queue t front y ys inv e in
    elim (Bool-cases (on_chan t chan y)) [
      | inr off ↦
          let (queue', t', run, w) =
            wakeup_loop-Woken n chan queue t (front ++ y ∷ []) ys inv
              (e ∙ sym (snoc-append front y ys)) (omega arith) in
          (
            queue',
            t',
            skip_run chan n y ys t at.ne_null at.in_table at.asleep off at.next ∙ run,
            Woken-skip queue queue' t t' chan y front ys off w,
          )
      | inl is ↦
          let (l, l', run, run', inv') = rouse_step queue t y inv at.in_table at.asleep in
          let gone =
            moved-sleep queue y ((t.procs y).priority)
            ∙ ap (erase y) e
            ∙ erase-append y front ys at.not_before in
          let (queue', t', rest, w) =
            wakeup_loop-Woken n chan (moved queue y ((t.procs y).priority)) (roused t y l') front ys
              inv' gone (omega arith) in
          (
            queue',
            t',
            rouse_run chan n y ys t l l' at.ne_null at.in_table at.asleep is at.next run run'
                ∙ rest,
            Woken-rouse queue queue' t t' chan y l' front ys is at.not_behind e at.not_before w,
          )
    ]

-- The lists after wakeup1: the sleeping processes on the channel have gone, in their order, behind
-- those of their ready lists.
abbrev pub woken_queue : (Slot → List Ptr) → Table → ℕ → Slot → List Ptr
woken_queue queue t chan (ready i) =
    queue (ready i) ++ keep (λ q. on_chan t chan q && (t.procs q).priority == i) (queue Slot.sleep)
woken_queue queue t chan Slot.sleep = keep (λ q. not (on_chan t chan q)) (queue Slot.sleep)
woken_queue queue t chan k = queue k

woken_queue_lem :
    (queue queue' : Slot → List Ptr) (t t' : Table) (chan : ℕ)
    → Woken queue t chan [] (queue Slot.sleep) queue' t'
    → (k : Slot) → queue' k ≡ woken_queue queue t chan k
woken_queue_lem queue queue' t t' chan w (ready i) = w.readied i
woken_queue_lem queue queue' t t' chan w Slot.sleep = w.asleep
woken_queue_lem queue queue' t t' chan w Slot.free = w.elsewhere Slot.free (λ e. cc) (λ i e. cc)
woken_queue_lem queue queue' t t' chan w Slot.zombie = w.elsewhere Slot.zombie (λ e. cc) (λ i e. cc)
woken_queue_lem queue queue' t t' chan w Slot.running =
    w.elsewhere Slot.running (λ e. cc) (λ i e. cc)
woken_queue_lem queue queue' t t' chan w Slot.embryo = w.elsewhere Slot.embryo (λ e. cc) (λ i e. cc)

-- The sleep list holds exactly the sleeping processes.
pub has-sleep :
    (queue : Slot → List Ptr) (t : Table) (q : Ptr)
    → IsOrdered queue t
    → InTable q
    → has q (queue Slot.sleep) ≡ (code ((t.procs q).state) == code sleeping)
has-sleep queue t q inv h = elim (Bool-cases (has q (queue Slot.sleep))) [
  | inl on ↦ rw (on, home-sleep (t.procs q) (inv.at_home Slot.sleep q on))
  | inr off ↦ rw off (
      sym (
        code_ne_sleeping ((t.procs q).state) (λ e.
          let on : has q (queue Slot.sleep) ≡ true =
            subst (λ st. has q (queue (slot_of st ((t.procs q).priority))) ≡ true) e
              (inv.complete q h (λ z. omega arith)) in
          cc)))
]

-- What the scan of the whole table does to one process: it wakes who sleeps on the channel.
abbrev pub scanned : ℕ → Proc → Proc
scanned chan q =
    if code (q.state) == code sleeping && q.chan == chan then set_state runnable q else q

le-suc : {n : ℕ} → n ≤ nproc → n < nproc + 1
le-suc h = omega arith

wakeup1_run :
    (chan : ℕ) (t t' : Table) (xs : List Ptr)
    → t.lists.head Slot.sleep ≡ head xs
    → wakeup_loop (nproc + 1) chan (head xs) t ≡ ok tt t'
    → wakeup_loop (nproc + 1) chan 0 t ≡ ok tt t
    → wakeup1 chan t ≡ ok tt t'
unfolding wakeup1 load_head
wakeup1_run chan t t' xs e run idle = elim (Bool-cases (head xs == 0)) [
  | inl is ↦
      rw (e, is)
        (sym idle
          ∙ subst (λ p. wakeup_loop (nproc + 1) chan p t ≡ ok tt t') (==→eq (head xs) 0 is) run)
  | inr ne ↦ rw (e, ne) run
]

-- On a table in order wakeup1 does what a scan of the whole table would do: exactly the processes
-- that sleep on the channel become runnable, and nothing else of any process changes. They go, in
-- the order in which they slept, behind the processes of the ready list of their priority, and the
-- table stays in order.
pub wakeup1_lem :
    (queue : Slot → List Ptr) (t : Table) (chan : ℕ)
    → IsOrdered queue t
    → (t' : Table) × (wakeup1 chan t ≡ ok tt t')
      × IsOrdered (woken_queue queue t chan) t'
      × ((q : Ptr) → InTable q → t'.procs q ≡ scanned chan (t.procs q))
      × (t'.trace ≡ t.trace)
wakeup1_lem queue t chan inv =
    let (queue', t', run, w) =
      wakeup_loop-Woken (nproc + 1) chan queue t [] (queue Slot.sleep) inv refl
        (le-suc (length-queue-le queue 0 t.procs t.lists Slot.sleep inv)) in
    (
      t',
      wakeup1_run chan t t' (queue Slot.sleep)
          (Chain-head t.lists.next (t.lists.head Slot.sleep) (queue Slot.sleep)
            (inv.chain Slot.sleep))
          run (wakeup_loop-null nproc chan t),
      subst (λ k. IsOrdered k t') (fun_ext (woken_queue_lem queue queue' t t' chan w)) w.ordered,
      (λ q h.
          w.procs q
          ∙ ap (λ b. if b && on_chan t chan q then set_state runnable (t.procs q) else t.procs q)
              (has-sleep queue t q inv h)),
      w.quiet,
    )
