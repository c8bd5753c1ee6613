-- ===== src/Proc/Exit/Handover.antt =====
-- The table when exit() has handed the children over, and before the process changes its list.
use fp_sisop20_b.Prelude.{
  or_true, ℕ, zero, suc, ◌+◌, ◌≤◌, ◌≡◌, ◌≢◌, refl, sym, subst, inl, inr, Bool, true, false, List,
  [], ◌∷◌, ◌++◌, arith, if◌then◌else◌, Bool-cases,
}
use fp_sisop20_b.Run.{ok}
use fp_sisop20_b.StateList.{
  Ptr, Slot, ready, nproc, Lists, max_priority, success, load_head, remove_from_state_list,
  add_to_state_list_head,
}
use fp_sisop20_b.StateList.Chain.{head, has, has-append}
use fp_sisop20_b.Proc.{
  Proc, ProcState, unused, embryo, sleeping, runnable, running, zombie, Table, put, set_state,
  ready_slots,
}
use fp_sisop20_b.Proc.Invariant.{InTable, slot_of, home, IsOrdered}
use fp_sisop20_b.Proc.Steps.{Inv-edit}
use fp_sisop20_b.Proc.Requeue.{assert_state-ok}
use fp_sisop20_b.Proc.Sleep.{wakeup1}
use fp_sisop20_b.Proc.Sleep.Wakeup.{scanned}
use fp_sisop20_b.Proc.Exit.{orphan_zombies, orphan_lists, exit_table}
use fp_sisop20_b.Proc.Exit.Adopt.{
  adopt, adopt_twice, adopt-home, adopt-priority, scanned-parent, swept, joined,
}
use fp_sisop20_b.Proc.Exit.Zombies.{any_child, handed}

-- The lists that exit() walks through.
abbrev pub walked : List Slot
walked = Slot.running ∷ ready_slots ++ Slot.sleep ∷ Slot.embryo ∷ Slot.free ∷ []

-- What exit() makes of a process: its parent wakes up, and its children go to init, which wakes up if one
-- of them, by `kids`, is a zombie.
abbrev pub left : (me init parent : Ptr) (kids : Bool) → Proc → Proc
left me init parent kids q =
    let p = scanned parent q in adopt me init (if kids then scanned init p else p)

joined_here :
    (queue : Slot → List Ptr) (k : Slot) (ks : List Slot) (q : Ptr)
    → has q (queue k) ≡ true
    → has q (joined queue (k ∷ ks)) ≡ true
joined_here queue k ks q h = rw (has-append q (queue k) (joined queue ks), h) refl

joined_there :
    (queue : Slot → List Ptr) (k : Slot) (ks : List Slot) (q : Ptr)
    → has q (joined queue ks) ≡ true
    → has q (joined queue (k ∷ ks)) ≡ true
joined_there queue k ks q h =
    rw (has-append q (queue k) (joined queue ks), h) (or_true (has q (queue k)))

-- The lists that are walked hold every process that is no zombie.
pub walked-any :
    (queue : Slot → List Ptr) (t : Table) (q : Ptr)
    → IsOrdered queue t
    → InTable q
    → has q (queue Slot.zombie) ≡ false
    → has q (joined queue walked) ≡ true
walked-any queue t q inv h off = by_state (t.procs q).state (inv.complete q h (λ z. omega arith))
  where
    later3 :
        (ks : List Slot)
        → has q (joined queue ks) ≡ true
        → has q (joined queue (ready 0 ∷ ready 1 ∷ ready 2 ∷ ks)) ≡ true
    later3 ks on =
        joined_there queue (ready 0) (ready 1 ∷ ready 2 ∷ ks) q
          (joined_there queue (ready 1) (ready 2 ∷ ks) q (joined_there queue (ready 2) ks q on))

    by_ready :
        (i : ℕ)
        → i ≤ max_priority
        → has q (queue (ready i)) ≡ true
        → has q (joined queue (ready_slots ++ Slot.sleep ∷ Slot.embryo ∷ Slot.free ∷ [])) ≡ true
    by_ready zero le on =
        joined_here queue (ready 0) (ready 1 ∷ ready 2 ∷ Slot.sleep ∷ Slot.embryo ∷ Slot.free ∷ [])
          q on
    by_ready (suc zero) le on =
        joined_there queue (ready 0) (ready 1 ∷ ready 2 ∷ Slot.sleep ∷ Slot.embryo ∷ Slot.free ∷ [])
          q (joined_here queue (ready 1) (ready 2 ∷ Slot.sleep ∷ Slot.embryo ∷ Slot.free ∷ []) q on)
    by_ready (suc (suc zero)) le on =
        joined_there queue (ready 0) (ready 1 ∷ ready 2 ∷ Slot.sleep ∷ Slot.embryo ∷ Slot.free ∷ [])
          q
          (joined_there queue (ready 1) (ready 2 ∷ Slot.sleep ∷ Slot.embryo ∷ Slot.free ∷ []) q
            (joined_here queue (ready 2) (Slot.sleep ∷ Slot.embryo ∷ Slot.free ∷ []) q on))
    by_ready (suc (suc (suc i))) le on = absurd (omega (arith, le))

    by_state :
        (st : ProcState)
        → has q (queue (slot_of st (t.procs q).priority)) ≡ true
        → has q (joined queue walked) ≡ true
    by_state running on =
        joined_here queue Slot.running (ready_slots ++ Slot.sleep ∷ Slot.embryo ∷ Slot.free ∷ []) q
          on
    by_state runnable on =
        joined_there queue Slot.running (ready_slots ++ Slot.sleep ∷ Slot.embryo ∷ Slot.free ∷ []) q
          (by_ready (t.procs q).priority (inv.bounded q) on)
    by_state sleeping on =
        joined_there queue Slot.running (ready_slots ++ Slot.sleep ∷ Slot.embryo ∷ Slot.free ∷ []) q
          (later3 (Slot.sleep ∷ Slot.embryo ∷ Slot.free ∷ [])
            (joined_here queue Slot.sleep (Slot.embryo ∷ Slot.free ∷ []) q on))
    by_state embryo on =
        joined_there queue Slot.running (ready_slots ++ Slot.sleep ∷ Slot.embryo ∷ Slot.free ∷ []) q
          (later3 (Slot.sleep ∷ Slot.embryo ∷ Slot.free ∷ []) (
            joined_there queue Slot.sleep (Slot.embryo ∷ Slot.free ∷ []) q
              (joined_here queue Slot.embryo (Slot.free ∷ []) q on)))
    by_state unused on =
        joined_there queue Slot.running (ready_slots ++ Slot.sleep ∷ Slot.embryo ∷ Slot.free ∷ []) q
          (later3 (Slot.sleep ∷ Slot.embryo ∷ Slot.free ∷ []) (
            joined_there queue Slot.sleep (Slot.embryo ∷ Slot.free ∷ []) q (
              joined_there queue Slot.embryo (Slot.free ∷ []) q
                (joined_here queue Slot.free [] q on))))
    by_state zombie on = cc

pub any_child_same :
    (me chan : Ptr) (procs procs' : Ptr → Proc) (xs : List Ptr)
    → ((q : Ptr) → has q xs ≡ true → procs' q ≡ scanned chan (procs q))
    → any_child me procs' xs ≡ any_child me procs xs
any_child_same me chan procs procs' [] same = refl
any_child_same me chan procs procs' (x ∷ xs) same =
    rw
      (
        same x (ground arith),
        scanned-parent chan (procs x),
        any_child_same me chan procs procs' xs (λ q on. same q (ground (arith, on))),
      )
      refl

pub exit_run :
    (me init : Ptr) (z : List Ptr) (t t1 t2 t3 : Table) (l l' : Lists)
    → wakeup1 (t.procs me).parent t ≡ ok tt t1
    → t1.lists.head Slot.zombie ≡ head z
    → orphan_zombies (nproc + 1) me init (head z) t1 ≡ ok tt t2
    → orphan_lists walked me init t2 ≡ ok tt t3
    → InTable me
    → (t3.procs me).state ≡ running
    → remove_from_state_list Slot.running me t3.lists ≡ ok success l
    → add_to_state_list_head Slot.zombie me l ≡ ok success l'
    → exit_table me init t
      ≡ ok tt (record t3 { procs = put t3.procs me (set_state zombie (t3.procs me)); lists = l' })
unfolding exit_table load_head
exit_run me init z t t1 t2 t3 l l' run1 first run2 run3 h st run4 run5 =
    rw (run1, first, run2, run3, assert_state-ok me running t3 h st, run4, run5) refl

-- The table in the middle of exit(), before the process changes its list.
pub record Handover (queue : Slot → List Ptr) (me init : Ptr) (t : Table) (queue' : Slot → List Ptr)
    (t' : Table) : Type 0 where
  pub ordered : IsOrdered queue' t'
  pub zombies : queue' Slot.zombie ≡ queue Slot.zombie
  pub procs :
      (q : Ptr)
      → InTable q
      → t'.procs q
        ≡ left me init (t.procs me).parent (any_child me t.procs (queue Slot.zombie)) (t.procs q)
  pub trace : t'.trace ≡ t.trace

pub swept-IsOrdered :
    (queue : Slot → List Ptr) (me init : Ptr) (xs : List Ptr) (t : Table)
    → IsOrdered queue t
    → IsOrdered queue (record t { procs = swept me init xs t.procs })
swept-IsOrdered queue me init xs t inv =
    Inv-edit queue 0 t.procs (swept me init xs t.procs) t.lists inv
      (λ q. by_home (has q xs) (t.procs q))
      (λ q.
        subst (λ m. m ≤ max_priority) (sym (by_priority (has q xs) (t.procs q))) (inv.bounded q))
  where
    by_home : (b : Bool) (p : Proc) → home (if b then adopt me init p else p) ≡ home p
    by_home true p = adopt-home me init p
    by_home false p = refl

    by_priority : (b : Bool) (p : Proc) → (if b then adopt me init p else p).priority ≡ p.priority
    by_priority true p = adopt-priority me init p
    by_priority false p = refl

-- The walk over the zombies and then the others reaches every process.
pub swept-handed :
    (me init : Ptr) (zs xs : List Ptr) (procs procs' : Ptr → Proc) (kids : Bool) (q : Ptr)
    → me ≢ init
    → any_child me procs zs ≡ kids
    → procs' q ≡ handed me init zs procs q
    → (has q zs ≡ false → has q xs ≡ true)
    → swept me init xs procs' q ≡ adopt me init (if kids then scanned init (procs q) else procs q)
swept-handed me init zs xs procs procs' kids q ne e same reach = elim (Bool-cases (has q zs)) [
  | inr off ↦ rw (reach off, same, off, e) refl
  | inl on ↦ elim (Bool-cases (has q xs)) [
    | inl both ↦
        rw (both, same, on, e)
          (adopt_twice me init (if kids then scanned init (procs q) else procs q) ne)
    | inr only ↦ rw (only, same, on, e) refl
  ]
]
