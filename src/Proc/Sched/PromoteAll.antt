-- ===== src/Proc/Sched/PromoteAll.antt =====
-- promoteAll() as a whole: every active process goes up by one priority.
use fp_sisop20_b.Prelude.{
  ℕ, zero, suc, ◌+◌, ◌≤◌, ◌<◌, ◌≡◌, ◌≢◌, refl, sym, ap, ap₂, subst, ◌∙◌, ◌⊎◌, inl, inr, Bool, true,
  false, List, [], ◌++◌, arith, if◌then◌else◌, Bool-cases,
}
use fp_sisop20_b.Run.{ok}
use fp_sisop20_b.StateList.{Ptr, Slot, ready, nproc, max_priority, load_head}
use fp_sisop20_b.StateList.Chain.{has, Chain-head}
use fp_sisop20_b.Proc.{Proc, ProcState, unused, embryo, sleeping, runnable, running, zombie, Table}
use fp_sisop20_b.Proc.Invariant.{InTable, slot_of, home, IsOrdered}
use fp_sisop20_b.Proc.Moves.{length-queue-le, has-elsewhere}
use fp_sisop20_b.Proc.Steps.{Inv-edit}
use fp_sisop20_b.Proc.Homes.{is_active}
use fp_sisop20_b.Proc.Sched.{promote, promote_ready, promote_in_place, promote_all}
use fp_sisop20_b.Proc.Sched.Promote.{
  promote-state, promote-priority, promote_zero, raised, Promoted, promote_ready-Promoted,
  promote_in_place-raised,
}

abbrev IsReady : Slot → Type 0
IsReady (ready i) = Unit {0}
IsReady _ = ⊥

promote-le-max : (q : Proc) → q.priority ≤ max_priority → (promote q).priority ≤ max_priority
promote-le-max q h = omega (arith, promote-priority q)

-- A process that is not runnable is at home on the same list at every priority.
promote-home : (q : Proc) → ¬ IsReady (home q) → home (promote q) ≡ home q
promote-home q h = ap (λ s. slot_of s ((promote q).priority)) (promote-state q) ∙ by_state q.state h
  where
    by_state :
        (st : ProcState)
        → ¬ IsReady (slot_of st q.priority)
        → slot_of st ((promote q).priority) ≡ slot_of st q.priority
    by_state unused h' = refl
    by_state embryo h' = refl
    by_state sleeping h' = refl
    by_state runnable h' = absurd (h' tt)
    by_state running h' = refl
    by_state zombie h' = refl

raised-Inv :
    (queue : Slot → List Ptr) (t : Table) (k : Slot) (procs : Ptr → Proc)
    → IsOrdered queue t
    → ¬ IsReady k
    → ((q : Ptr) → procs q ≡ raised t.procs (queue k) q)
    → IsOrdered queue (record t { procs = procs })
raised-Inv queue t k procs inv plain is =
    Inv-edit queue 0 t.procs procs t.lists inv
      (λ q. ap home (is q) ∙ elim (Bool-cases (has q (queue k))) [
        | inl on ↦
            rw on (promote-home (t.procs q) (λ r. plain (subst IsReady (inv.at_home k q on) r)))
        | inr off ↦ rw off
      ])
      (λ q. rw (is q) (elim (Bool-cases (has q (queue k))) [
        | inl on ↦ rw on (promote-le-max (t.procs q) (inv.bounded q))
        | inr off ↦ rw off (inv.bounded q)
      ]))

-- The lists after promoteAll().
abbrev pub promoted_queue : (Slot → List Ptr) → Slot → List Ptr
promoted_queue queue (ready zero) = queue (ready 0) ++ queue (ready 1)
promoted_queue queue (ready (suc zero)) = queue (ready 2)
promoted_queue queue (ready (suc (suc zero))) = []
promoted_queue queue k = queue k

-- A ready list goes up.
pub ready_step :
    (queue : Slot → List Ptr) (t : Table) (j : ℕ)
    → IsOrdered queue t
    → (queue' : Slot → List Ptr) × (t' : Table) × (promote_ready
          (nproc + 1)
          (t.lists.head (ready (suc j)))
          t
        ≡ ok tt t')
      × Promoted queue t j (queue (ready (suc j))) queue' t'
ready_step queue t j inv =
    let k = ready (suc j) in
    let (queue', t', run, w) =
      promote_ready-Promoted (nproc + 1) queue t j (queue k) inv refl
        (room (length-queue-le queue 0 t.procs t.lists k inv)) in
    (
      queue',
      t',
      subst (λ p. promote_ready (nproc + 1) p t ≡ ok tt t')
          (sym (Chain-head t.lists.next (t.lists.head k) (queue k) (inv.chain k))) run,
      w,
    )
  where
    room : {m : ℕ} → m ≤ nproc → m < nproc + 1
    room h = omega arith

-- The processes of a list that is no ready list go up in place.
pub place_step :
    (queue : Slot → List Ptr) (t : Table) (k : Slot)
    → IsOrdered queue t
    → ¬ IsReady k
    → (procs : Ptr → Proc) × (promote_in_place (nproc + 1) (t.lists.head k) t
        ≡ ok tt (record t { procs = procs }))
      × ((q : Ptr) → procs q ≡ raised t.procs (queue k) q)
      × IsOrdered queue (record t { procs = procs })
place_step queue t k inv plain =
    let (procs, run, is) =
      promote_in_place-raised (nproc + 1) (t.lists.head k) (queue k) t (inv.chain k)
        (inv.distinct k) (room (length-queue-le queue 0 t.procs t.lists k inv)) in
    (procs, run, is, raised-Inv queue t k procs inv plain is)
  where
    room : {m : ℕ} → m ≤ nproc → m < nproc + 1
    room h = omega arith

pub promote_all_run :
    (t t1 t2 t3 t4 : Table)
    → promote_ready (nproc + 1) (t.lists.head (ready 1)) t ≡ ok tt t1
    → promote_ready (nproc + 1) (t1.lists.head (ready 2)) t1 ≡ ok tt t2
    → promote_in_place (nproc + 1) (t2.lists.head Slot.sleep) t2 ≡ ok tt t3
    → promote_in_place (nproc + 1) (t3.lists.head Slot.running) t3 ≡ ok tt t4
    → promote_all t ≡ ok tt t4
unfolding promote_all load_head
promote_all_run t t1 t2 t3 t4 r1 r2 r3 r4 = rw (r1, r2, r3, r4) refl

pub queue_after :
    (queue q1 q2 : Slot → List Ptr) (t t1 t2 : Table)
    → Promoted queue t 0 (queue (ready 1)) q1 t1
    → Promoted q1 t1 1 (q1 (ready 2)) q2 t2
    → (k : Slot) → q2 k ≡ promoted_queue queue k
queue_after queue q1 q2 t t1 t2 w1 w2 (ready zero) =
    w2.elsewhere (ready 0) (λ e. cc) (λ e. cc) ∙ w1.filled
queue_after queue q1 q2 t t1 t2 w1 w2 (ready (suc zero)) =
    w2.filled ∙ ap₂ (λ xs ys. xs ++ ys) w1.emptied (w1.elsewhere (ready 2) (λ e. cc) (λ e. cc))
queue_after queue q1 q2 t t1 t2 w1 w2 (ready (suc (suc zero))) = w2.emptied
queue_after queue q1 q2 t t1 t2 w1 w2 (ready (suc (suc (suc i)))) =
    w2.elsewhere (ready (suc (suc (suc i)))) (λ e. cc) (λ e. cc)
    ∙ w1.elsewhere (ready (suc (suc (suc i)))) (λ e. cc) (λ e. cc)
queue_after queue q1 q2 t t1 t2 w1 w2 Slot.free =
    w2.elsewhere Slot.free (λ e. cc) (λ e. cc) ∙ w1.elsewhere Slot.free (λ e. cc) (λ e. cc)
queue_after queue q1 q2 t t1 t2 w1 w2 Slot.sleep =
    w2.elsewhere Slot.sleep (λ e. cc) (λ e. cc) ∙ w1.elsewhere Slot.sleep (λ e. cc) (λ e. cc)
queue_after queue q1 q2 t t1 t2 w1 w2 Slot.zombie =
    w2.elsewhere Slot.zombie (λ e. cc) (λ e. cc) ∙ w1.elsewhere Slot.zombie (λ e. cc) (λ e. cc)
queue_after queue q1 q2 t t1 t2 w1 w2 Slot.running =
    w2.elsewhere Slot.running (λ e. cc) (λ e. cc) ∙ w1.elsewhere Slot.running (λ e. cc) (λ e. cc)
queue_after queue q1 q2 t t1 t2 w1 w2 Slot.embryo =
    w2.elsewhere Slot.embryo (λ e. cc) (λ e. cc) ∙ w1.elsewhere Slot.embryo (λ e. cc) (λ e. cc)

-- What is left of a process when every active one has gone up.
abbrev pub promoted : Proc → Proc
promoted q = if is_active q.state then promote q else q

abbrev pub four : (Ptr → Proc) → (a b c d : List Ptr) → Ptr → Proc
four procs a b c d = raised (raised (raised (raised procs a) b) c) d

-- A process stands on at most one of the four lists.
four-cases :
    (procs : Ptr → Proc) (a b c d : List Ptr) (q : Ptr) (i j k l : Bool)
    → has q a ≡ i
    → has q b ≡ j
    → has q c ≡ k
    → has q d ≡ l
    → four procs a b c d q ≡ (
        let u = if i then promote (procs q) else procs q in
        let v = if j then promote u else u in
        let w = if k then promote v else v in if l then promote w else w)
four-cases procs a b c d q i j k l ha hb hc hd = rw (ha, hb, hc, hd) refl

module _ (queue : Slot → List Ptr) (t : Table) (inv : IsOrdered queue t) (q : Ptr)
    (h : InTable q) where
  on_home : (k : Slot) → home (t.procs q) ≡ k → has q (queue k) ≡ true
  on_home k e = subst (λ j. has q (queue j) ≡ true) e (inv.complete q h (λ z. omega arith))

  off_home : (k k' : Slot) → home (t.procs q) ≡ k → k' ≢ k → has q (queue k') ≡ false
  off_home k k' e ne = has-elsewhere q k' inv (λ d. ne (d ∙ e))

  four_off :
      (k : Slot)
      → home (t.procs q) ≡ k
      → ready 1 ≢ k
      → ready 2 ≢ k
      → Slot.sleep ≢ k
      → Slot.running ≢ k
      → four t.procs (queue (ready 1)) (queue (ready 2)) (queue Slot.sleep) (queue Slot.running) q
        ≡ t.procs q
  four_off k e n1 n2 n3 n4 =
      four-cases t.procs (queue (ready 1)) (queue (ready 2)) (queue Slot.sleep) (queue Slot.running)
        q false false false false (off_home k (ready 1) e n1) (off_home k (ready 2) e n2)
        (off_home k Slot.sleep e n3) (off_home k Slot.running e n4)

  four_on :
      (k : Slot)
      → home (t.procs q) ≡ k
      → (k ≡ ready 1) ⊎ (k ≡ ready 2) ⊎ (k ≡ Slot.sleep) ⊎ (k ≡ Slot.running)
      → four t.procs (queue (ready 1)) (queue (ready 2)) (queue Slot.sleep) (queue Slot.running) q
        ≡ promote (t.procs q)
  four_on k e (inl is) =
      four-cases t.procs (queue (ready 1)) (queue (ready 2)) (queue Slot.sleep) (queue Slot.running)
        q true false false false (on_home (ready 1) (e ∙ is))
        (off_home (ready 1) (ready 2) (e ∙ is) (λ d. ground arith))
        (off_home (ready 1) Slot.sleep (e ∙ is) (λ d. cc))
        (off_home (ready 1) Slot.running (e ∙ is) (λ d. cc))
  four_on k e (inr (inl is)) =
      four-cases t.procs (queue (ready 1)) (queue (ready 2)) (queue Slot.sleep) (queue Slot.running)
        q false true false false (off_home (ready 2) (ready 1) (e ∙ is) (λ d. ground arith))
        (on_home (ready 2) (e ∙ is)) (off_home (ready 2) Slot.sleep (e ∙ is) (λ d. cc))
        (off_home (ready 2) Slot.running (e ∙ is) (λ d. cc))
  four_on k e (inr (inr (inl is))) =
      four-cases t.procs (queue (ready 1)) (queue (ready 2)) (queue Slot.sleep) (queue Slot.running)
        q false false true false (off_home Slot.sleep (ready 1) (e ∙ is) (λ d. cc))
        (off_home Slot.sleep (ready 2) (e ∙ is) (λ d. cc)) (on_home Slot.sleep (e ∙ is))
        (off_home Slot.sleep Slot.running (e ∙ is) (λ d. cc))
  four_on k e (inr (inr (inr is))) =
      four-cases t.procs (queue (ready 1)) (queue (ready 2)) (queue Slot.sleep) (queue Slot.running)
        q false false false true (off_home Slot.running (ready 1) (e ∙ is) (λ d. cc))
        (off_home Slot.running (ready 2) (e ∙ is) (λ d. cc))
        (off_home Slot.running Slot.sleep (e ∙ is) (λ d. cc)) (on_home Slot.running (e ∙ is))

  -- An active process is promoted once, the others not at all.
  pub four_raised :
      (st : ProcState) (i : ℕ)
      → (t.procs q).state ≡ st
      → (t.procs q).priority ≡ i
      → i ≤ max_priority
      → four t.procs (queue (ready 1)) (queue (ready 2)) (queue Slot.sleep) (queue Slot.running) q
        ≡ promoted (t.procs q)
  four_raised unused i e ei h' =
      four_off Slot.free (ap₂ slot_of e ei) (λ d. cc) (λ d. cc) (λ d. cc) (λ d. cc) ∙ rw e refl
  four_raised embryo i e ei h' =
      four_off Slot.embryo (ap₂ slot_of e ei) (λ d. cc) (λ d. cc) (λ d. cc) (λ d. cc) ∙ rw e refl
  four_raised zombie i e ei h' =
      four_off Slot.zombie (ap₂ slot_of e ei) (λ d. cc) (λ d. cc) (λ d. cc) (λ d. cc) ∙ rw e refl
  four_raised sleeping i e ei h' =
      four_on Slot.sleep (ap₂ slot_of e ei) (inr (inr (inl refl))) ∙ rw e refl
  four_raised running i e ei h' =
      four_on Slot.running (ap₂ slot_of e ei) (inr (inr (inr refl))) ∙ rw e refl
  four_raised runnable zero e ei h' =
      four_off (ready 0) (ap₂ slot_of e ei) (λ d. cc) (λ d. cc) (λ d. cc) (λ d. cc)
      ∙ sym (promote_zero (t.procs q) ei)
      ∙ rw e refl
  four_raised runnable (suc zero) e ei h' =
      four_on (ready 1) (ap₂ slot_of e ei) (inl refl) ∙ rw e refl
  four_raised runnable (suc (suc zero)) e ei h' =
      four_on (ready 2) (ap₂ slot_of e ei) (inr (inl refl)) ∙ rw e refl
  four_raised runnable (suc (suc (suc i))) e ei h' = absurd (omega arith)
