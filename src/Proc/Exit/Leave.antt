-- ===== src/Proc/Exit/Leave.antt =====
-- exit() under the lock: the parent is woken, the children are handed over, and the process becomes a
-- zombie.
use fp_sisop20_b.Prelude.{
  ℕ, ◌+◌, ◌<◌, ◌≤◌, ◌≡◌, ◌≢◌, refl, sym, ap, subst, ◌∙◌, inl, inr, Bool, true, false, List, [], ◌∷◌,
  arith, ◌==◌, if◌then◌else◌, Bool-cases,
}
use fp_sisop20_b.Run.{ok}
use fp_sisop20_b.StateList.{Ptr, Slot, nproc}
use fp_sisop20_b.StateList.Chain.{head, Chain-head, has}
use fp_sisop20_b.Proc.{Proc, running, zombie, Table, put, set_state}
use fp_sisop20_b.Proc.Invariant.{InTable, slot_of, IsOrdered}
use fp_sisop20_b.Proc.Homes.{code_ne_sleeping}
use fp_sisop20_b.Proc.Moves.{length-queue-le}
use fp_sisop20_b.Proc.Steps.{put_self, put_ne}
use fp_sisop20_b.Proc.Requeue.{stacked, stacked_to, stack_step}
use fp_sisop20_b.Proc.Sleep.{wakeup1}
use fp_sisop20_b.Proc.Sleep.Wakeup.{scanned, woken_queue, wakeup1_lem}
use fp_sisop20_b.Proc.Exit.{set_parent, orphan_zombies, orphan_lists, exit_table}
use fp_sisop20_b.Proc.Exit.Adopt.{adopt, swept, joined, orphan_lists_lem}
use fp_sisop20_b.Proc.Exit.Zombies.{any_child, zombies_lem}
use fp_sisop20_b.Proc.Exit.Handover.{
  walked, left, walked-any, any_child_same, exit_run, Handover, swept-IsOrdered, swept-handed,
}

handover :
    (queue : Slot → List Ptr) (me init : Ptr) (t : Table)
    → me ≢ init
    → IsOrdered queue t
    → (queue' : Slot → List Ptr) × (t1 : Table) × (t2 : Table) × (t3 : Table) × (wakeup1
          (t.procs me).parent
          t
        ≡ ok tt t1)
      × (t1.lists.head Slot.zombie ≡ head (queue Slot.zombie))
      × (orphan_zombies (nproc + 1) me init (head (queue Slot.zombie)) t1 ≡ ok tt t2)
      × (orphan_lists walked me init t2 ≡ ok tt t3)
      × Handover queue me init t queue' t3
handover queue me init t ne inv =
    let zs = queue Slot.zombie in
    let parent = (t.procs me).parent in
    let (t1, run1, inv1, is1, quiet1) = wakeup1_lem queue t parent inv in
    let queue1 = woken_queue queue t parent in
    let (queue', t2, run2, w) =
      zombies_lem me init (nproc + 1) queue1 t1 [] zs ne inv1 refl
        (short (length-queue-le queue 0 t.procs t.lists Slot.zombie inv)) in
    let xs = joined queue' walked in
    let kids =
      any_child_same me parent t.procs t1.procs zs (λ q on. is1 q (inv.within Slot.zombie q on)) in
    (
      queue',
      t1,
      t2,
      record t2 { procs = swept me init xs t2.procs },
      run1,
      Chain-head t1.lists.next (t1.lists.head Slot.zombie) zs (inv1.chain Slot.zombie),
      run2,
      orphan_lists_lem me init queue' walked t2 ne w.ordered.chain
          (λ k. length-queue-le queue' 0 t2.procs t2.lists k w.ordered) refl,
      record {
        ordered = swept-IsOrdered queue' me init xs t2 w.ordered;
        zombies = w.zombies;
        procs = λ q on.
            swept-handed me init zs xs t1.procs t2.procs (any_child me t.procs zs) q ne kids
              (w.procs q on)
              (λ off.
                walked-any queue' t2 q w.ordered on
                  (subst (λ ys. has q ys ≡ false) (sym w.zombies) off))
            ∙ ap (λ p. adopt me init (if any_child me t.procs zs then scanned init p else p))
                (is1 q on);
        trace = w.trace ∙ quiet1;
      },
    )
  where
    short : {a : ℕ} → a ≤ nproc → a < nproc + 1
    short h = omega (arith, h)

pub scanned_awake : (chan : ℕ) (q : Proc) → q.state ≡ running → scanned chan q ≡ q
scanned_awake chan q e = let h = code_ne_sleeping q.state (λ z. cc) in rw h refl

adopt-state : (me init : Ptr) (q : Proc) → (adopt me init q).state ≡ q.state
unfolding set_parent
adopt-state me init q = elim (Bool-cases (q.parent == me)) [
  | inl is ↦ rw is refl
  | inr other ↦ rw other refl
]

left-state :
    (me init parent : Ptr) (kids : Bool) (q : Proc)
    → q.state ≡ running
    → (left me init parent kids q).state ≡ running
left-state me init parent false q e =
    adopt-state me init (scanned parent q) ∙ rw (scanned_awake parent q e) e
left-state me init parent true q e =
    adopt-state me init (scanned init (scanned parent q))
    ∙ rw (scanned_awake parent q e, scanned_awake init q e) e

-- exit() under the lock, for a running process that is not init and a table in order. It becomes a zombie,
-- in front of the others; its parent wakes up; all of its children have init as their parent, which wakes
-- up if one of them is a zombie; no process changes otherwise, and the table stays in order.
pub exit_table_lem :
    (queue : Slot → List Ptr) (me init : Ptr) (t : Table)
    → IsOrdered queue t
    → InTable me
    → me ≢ init
    → (t.procs me).state ≡ running
    → (queue' : Slot → List Ptr) × (t' : Table) × (exit_table me init t ≡ ok tt t')
      × IsOrdered queue' t'
      × (queue' Slot.zombie ≡ me ∷ queue Slot.zombie)
      × (t'.procs me
          ≡ set_state zombie (
              left me init
                (t.procs me).parent
                (any_child me t.procs (queue Slot.zombie))
                (t.procs me)))
      × ((q : Ptr)
          → InTable q
          → q ≢ me
          → t'.procs q
            ≡ left me init
                (t.procs me).parent
                (any_child me t.procs (queue Slot.zombie))
                (t.procs q))
      × (t'.trace ≡ t.trace)
exit_table_lem queue me init t inv h ne st =
    let (queue1, t1, t2, t3, run1, first, run2, run3, w) = handover queue me init t ne inv in
    let parent = (t.procs me).parent in
    let kids = any_child me t.procs (queue Slot.zombie) in
    let at : (t3.procs me).state ≡ running =
      ap (λ (q : Proc). q.state) (w.procs me h) ∙ left-state me init parent kids (t.procs me) st in
    let (l, l', run4, run5, inv') =
      stack_step queue1 t3.procs t3.lists me Slot.running Slot.zombie zombie w.ordered h
        (ap (λ s. slot_of s (t3.procs me).priority) at) refl in
    (
      stacked queue1 me Slot.running Slot.zombie,
      record t3 { procs = put t3.procs me (set_state zombie (t3.procs me)); lists = l' },
      exit_run me init (queue Slot.zombie) t t1 t2 t3 l l' run1 first run2 run3 h at run4 run5,
      inv',
      stacked_to queue1 me Slot.running Slot.zombie (λ e. cc) ∙ ap (λ xs. me ∷ xs) w.zombies,
      put_self t3.procs me (set_state zombie (t3.procs me)) ∙ ap (set_state zombie) (w.procs me h),
      (λ q on other. put_ne t3.procs me (set_state zombie (t3.procs me)) q other ∙ w.procs q on),
      w.trace,
    )
