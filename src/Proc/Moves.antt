-- ===== src/Proc/Moves.antt =====
-- What a list operation, or a write to a process, does to the invariant.
use fp_sisop20_b.Prelude.{
  ◌≤◌, ◌≡◌, ◌≢◌, refl, sym, ap, subst, ◌∙◌, inl, inr, ◌⊎◌, true, false, not, ◌&&◌, ◌||◌, List,
  arith, ◌==◌, ==→eq, ==→ne, ==_ne, Bool-cases, length,
}
use fp_sisop20_b.StateList.{Ptr, Slot, Slot-discrete, Lists, nproc, max_priority, assign, in_range}
use fp_sisop20_b.StateList.Chain.{has, Distinct, Chain, Chain-frame}
use fp_sisop20_b.StateList.Single.{assign_self, assign_ne, Moved}
use fp_sisop20_b.StateList.Capacity.{length-le}
use fp_sisop20_b.Proc.{Proc, ProcState}
use fp_sisop20_b.Proc.Invariant.{InTable, slot_of, home, Inv}

pub length-queue-le :
    (queue : Slot → List Ptr) (out : Ptr) (procs : Ptr → Proc) (lists : Lists) (k : Slot)
    → Inv queue out procs lists
    → length (queue k) ≤ nproc
length-queue-le queue out procs lists k inv =
    length-le nproc (queue k) (inv.distinct k) (inv.within k)

-- The home of every process is a list that exists.
pub home-in_range : (p : Proc) → p.priority ≤ max_priority → in_range (home p) ≡ true
home-in_range p h = by_state p.state
  where
    by_state : (st : ProcState) → in_range (slot_of st p.priority) ≡ true
    by_state ProcState.unused = refl
    by_state ProcState.embryo = refl
    by_state ProcState.sleeping = refl
    by_state ProcState.runnable = ground arith
    by_state ProcState.running = refl
    by_state ProcState.zombie = refl

-- A process stands on no other list than its home.
pub has-elsewhere :
    {queue : Slot → List Ptr} {out : Ptr} {procs : Ptr → Proc} {lists : Lists} (p : Ptr) (j : Slot)
    → Inv queue out procs lists
    → j ≢ home (procs p)
    → has p (queue j) ≡ false
has-elsewhere {queue} p j inv ne = elim (Bool-cases (has p (queue j))) [
  | inl on ↦ absurd (ne (sym (inv.at_home j p on)))
  | inr off ↦ off
]

-- Nor does the process that is on no list.
pub has-out :
    {queue : Slot → List Ptr} {out : Ptr} {procs : Ptr → Proc} {lists : Lists} (j : Slot)
    → Inv queue out procs lists
    → has out (queue j) ≡ false
has-out {queue} {out} j inv = elim (Bool-cases (has out (queue j))) [
  | inl on ↦ absurd (inv.absent j out on refl)
  | inr off ↦ off
]

module _ {queue : Slot → List Ptr} {out : Ptr} {procs : Ptr → Proc} {lists lists' : Lists}
    (k : Slot) (p : Ptr) (ys : List Ptr) (inv : Inv queue out procs lists)
    (moved : Moved k p (queue k) ys lists lists')
    (elsewhere : (j : Slot) → j ≢ k → has p (queue j) ≡ false) where
  Moved-Chain : (j : Slot) → Chain lists'.next (lists'.head j) (assign queue k ys j)
  Moved-Chain j = elim (Slot-discrete j k) [
    | yes e ↦
        subst (λ i. Chain lists'.next (lists'.head i) (assign queue k ys i)) (sym e)
          (rw (assign_self queue k ys) moved.chain)
    | no ne ↦
        rw (assign_ne queue k ys j ne, moved.heads j ne)
          (Chain-frame lists.next lists'.next (lists.head j) (queue j)
            (λ q on. moved.others q (off_k q on ne) (not_p q on ne)) (inv.chain j))
  ]
    where
      off_k : (q : Ptr) → has q (queue j) ≡ true → j ≢ k → has q (queue k) ≡ false
      off_k q on ne = elim (Bool-cases (has q (queue k))) [
        | inl both ↦ absurd (ne (sym (inv.at_home j q on) ∙ inv.at_home k q both))
        | inr off ↦ off
      ]

      not_p : (q : Ptr) → has q (queue j) ≡ true → j ≢ k → q ≢ p
      not_p q on ne = λ e.
          let off = elsewhere j ne in
          let on' : has p (queue j) ≡ true = subst (λ r. has r (queue j) ≡ true) e on in cc

-- Membership after list `k` has become `ys`.
has-assign :
    (queue : Slot → List Ptr) (k : Slot) (ys : List Ptr) (j : Slot) (q : Ptr)
    → has q (assign queue k ys j) ≡ true
    → ((j ≡ k) × (has q ys ≡ true)) ⊎ ((j ≢ k) × (has q (queue j) ≡ true))
has-assign queue k ys j q h = elim (Slot-discrete j k) [
  | yes e ↦
      inl (e, subst (λ xs. has q xs ≡ true) (ap (assign queue k ys) e ∙ assign_self queue k ys) h)
  | no ne ↦ inr (ne, rw (← assign_ne queue k ys j ne) h)
]

has-assign_of :
    (queue : Slot → List Ptr) (k : Slot) (ys : List Ptr) (j : Slot) (q : Ptr)
    → (j ≡ k → has q ys ≡ true)
    → (j ≢ k → has q (queue j) ≡ true)
    → has q (assign queue k ys j) ≡ true
has-assign_of queue k ys j q here there = elim (Slot-discrete j k) [
  | yes e ↦
      subst (λ i. has q (assign queue k ys i) ≡ true) (sym e) (rw (assign_self queue k ys) (here e))
  | no ne ↦ rw (assign_ne queue k ys j ne) (there ne)
]

Distinct-assign :
    (queue : Slot → List Ptr) (k : Slot) (ys : List Ptr)
    → ((j : Slot) → Distinct (queue j))
    → Distinct ys
    → (j : Slot) → Distinct (assign queue k ys j)
Distinct-assign queue k ys ds d j = elim (Slot-discrete j k) [
  | yes e ↦ subst (λ i. Distinct (assign queue k ys i)) (sym e) (rw (assign_self queue k ys) d)
  | no ne ↦ rw (assign_ne queue k ys j ne) (ds j)
]

module _ {queue : Slot → List Ptr} {procs : Ptr → Proc} {lists lists' : Lists} (k : Slot) (p : Ptr)
    (ys : List Ptr) (at : home (procs p) ≡ k) where
  -- A process that was on no list now stands on its home.
  pub put-Inv :
      Inv queue p procs lists
      → Moved k p (queue k) ys lists lists'
      → InTable p
      → Distinct ys
      → ((q : Ptr) → has q ys ≡ (q == p || has q (queue k)))
      → Inv (assign queue k ys) 0 procs lists'
  put-Inv inv moved in_table d members = record {
    chain = Moved-Chain k p ys inv moved (λ j _. has-out j inv);
    distinct = Distinct-assign queue k ys inv.distinct d;
    within = λ j q on. elim (has-assign queue k ys j q on) [
      | inl (e, in_ys) ↦ ground (arith, members q, inv.within k q)
      | inr (ne, old) ↦ inv.within j q old
    ];
    absent = λ j q on. elim (has-assign queue k ys j q on) [
      | inl (e, in_ys) ↦ ground (arith, members q, inv.within k q)
      | inr (ne, old) ↦ omega (arith, inv.within j q old)
    ];
    at_home = λ j q on. elim (has-assign queue k ys j q on) [
      | inl (e, in_ys) ↦ elim (Bool-cases (q == p)) [
        | inl is ↦ rw (==→eq q p is) (at ∙ sym e)
        | inr is ↦ inv.at_home k q (ground (arith, members q)) ∙ sym e
      ]
      | inr (ne, old) ↦ inv.at_home j q old
    ];
    complete = λ q t ne0.
        has-assign_of queue k ys (home (procs q)) q
          (λ e. elim (Bool-cases (q == p)) [
            | inl is ↦ rw (members q, is)
            | inr is ↦
                rw (members q, is)
                  (subst (λ j. has q (queue j) ≡ true) e (inv.complete q t (==→ne q p is)))
          ])
          (λ ne. inv.complete q t (λ e. ne (ap (λ r. home (procs r)) e ∙ at)));
    bounded = inv.bounded;
  }

  -- A process leaves its home.
  pub take-Inv :
      Inv queue 0 procs lists
      → Moved k p (queue k) ys lists lists'
      → Distinct ys
      → ((q : Ptr) → has q ys ≡ (has q (queue k) && not (q == p)))
      → Inv (assign queue k ys) p procs lists'
  take-Inv inv moved d members = record {
    chain = Moved-Chain k p ys inv moved (λ j ne. has-elsewhere p j inv (λ e. ne (e ∙ at)));
    distinct = Distinct-assign queue k ys inv.distinct d;
    within = λ j q on. elim (has-assign queue k ys j q on) [
      | inl (e, in_ys) ↦ inv.within k q (ground (arith, members q))
      | inr (ne, old) ↦ inv.within j q old
    ];
    absent = λ j q on. elim (has-assign queue k ys j q on) [
      | inl (e, in_ys) ↦ ground (arith, members q)
      | inr (ne, old) ↦ λ is. ne (sym (inv.at_home j q old) ∙ ap (λ r. home (procs r)) is ∙ at)
    ];
    at_home = λ j q on. elim (has-assign queue k ys j q on) [
      | inl (e, in_ys) ↦ inv.at_home k q (ground (arith, members q)) ∙ sym e
      | inr (ne, old) ↦ inv.at_home j q old
    ];
    complete = λ q t ne_p.
        has-assign_of queue k ys (home (procs q)) q
          (λ e.
            rw (members q, ==_ne ne_p)
              (rw (subst (λ j. has q (queue j) ≡ true) e (inv.complete q t (λ z. omega arith)))))
          (λ ne. inv.complete q t (λ z. omega arith));
    bounded = inv.bounded;
  }
