-- ===== src/Proc/Steps.antt =====
-- Each list operation, called on a table in order, succeeds and leaves the lists in order.
use fp_sisop20_b.Prelude.{
  ◌≤◌, ◌≡◌, ◌≢◌, refl, sym, subst, ◌∙◌, inl, inr, true, List, [], ◌∷◌, ◌++◌, arith, ◌==◌, ==→eq,
  ==→ne, ==_ne, ==_refl, Bool-cases,
}
use fp_sisop20_b.Run.{ok}
use fp_sisop20_b.StateList.{
  Ptr, Slot, Lists, success, max_priority, assign, in_range, add_to_state_list_head,
  add_to_state_list_end, remove_from_state_list, remove_head,
}
use fp_sisop20_b.StateList.Chain.{has, has-append, Distinct, Chain, erase}
use fp_sisop20_b.StateList.Single.{
  Moved, add_head-Moved, add_end-Moved, remove-Moved, remove_head-Moved,
}
use fp_sisop20_b.StateList.Capacity.{has-erase, Distinct-erase, Distinct-snoc}
use fp_sisop20_b.Proc.{Proc, put}
use fp_sisop20_b.Proc.Invariant.{InTable, home, Inv}
use fp_sisop20_b.Proc.Moves.{length-queue-le, home-in_range, has-out, put-Inv, take-Inv}

module _ (queue : Slot → List Ptr) (procs : Ptr → Proc) (lists : Lists) (k : Slot) (p : Ptr) where
  valid-home : home (procs p) ≡ k → (procs p).priority ≤ max_priority → in_range k ≡ true
  valid-home at h = subst (λ j. in_range j ≡ true) at (home-in_range (procs p) h)

  -- removeFromStateList finds a process on its home and takes it off, and nothing else.
  pub remove_step :
      Inv queue 0 procs lists
      → InTable p
      → home (procs p) ≡ k
      → (l : Lists) × (remove_from_state_list k p lists ≡ ok success l)
        × Inv (assign queue k (erase p (queue k))) p procs l
  remove_step inv t at =
      let on : has p (queue k) ≡ true =
        subst (λ j. has p (queue j) ≡ true) at (inv.complete p t (λ z. omega arith)) in
      let (l, run, moved) =
        remove-Moved k p lists (valid-home at (inv.bounded p)) (queue k) (λ z. omega arith) on
          (inv.distinct k) (length-queue-le queue 0 procs lists k inv) (inv.chain k) in
      (
        l,
        run,
        take-Inv k p (erase p (queue k)) at inv moved (Distinct-erase p (queue k) (inv.distinct k))
            (λ q. has-erase q p (queue k) (inv.distinct k)),
      )

  -- addToStateListEnd puts a process that is on no list behind the last one of its home.
  pub add_end_step :
      Inv queue p procs lists
      → InTable p
      → home (procs p) ≡ k
      → (l : Lists) × (add_to_state_list_end k p lists ≡ ok success l)
        × Inv (assign queue k (queue k ++ p ∷ [])) 0 procs l
  add_end_step inv t at =
      let (l, run, moved) =
        add_end-Moved k p lists (valid-home at (inv.bounded p)) (queue k) (λ z. omega arith)
          (has-out k inv) (inv.distinct k) (length-queue-le queue p procs lists k inv)
          (inv.chain k) in
      (
        l,
        run,
        put-Inv k p (queue k ++ p ∷ []) at inv moved t
            (Distinct-snoc p (queue k) (inv.distinct k) (has-out k inv))
            (λ q. ground (arith, has-append q (queue k) (p ∷ []))),
      )

  -- addToStateListHead puts it in front of the first one.
  pub add_head_step :
      Inv queue p procs lists
      → InTable p
      → home (procs p) ≡ k
      → (l : Lists) × (add_to_state_list_head k p lists ≡ ok success l)
        × Inv (assign queue k (p ∷ queue k)) 0 procs l
  add_head_step inv t at =
      let (l, run, moved) =
        add_head-Moved k p lists (valid-home at (inv.bounded p)) (queue k) (λ z. omega arith)
          (has-out k inv) (inv.chain k) in
      (l, run, put-Inv k p (p ∷ queue k) at inv moved t (has-out k inv, inv.distinct k) (λ q. refl))

  -- removeHead takes the first process of a list off it.
  pub remove_head_step :
      (xs : List Ptr)
      → Inv queue 0 procs lists
      → queue k ≡ p ∷ xs
      → (l : Lists) × (remove_head k lists ≡ ok p l) × Inv (assign queue k xs) p procs l
  remove_head_step xs inv e =
      let on : has p (queue k) ≡ true = rw e (ground arith) in
      let at : home (procs p) ≡ k = inv.at_home k p on in
      let d : Distinct (p ∷ xs) = subst Distinct e (inv.distinct k) in
      let (l, run, moved) =
        remove_head-Moved k p lists (valid-home at (inv.bounded p)) xs d
          (subst (Chain lists.next (lists.head k)) e (inv.chain k)) in
      (
        l,
        run,
        take-Inv k p xs at inv (subst (λ ys. Moved k p ys xs lists l) (sym e) moved) d.1
            (λ q. rw e (ground (arith, d))),
      )

-- A process on no list may be given another state and priority.
pub Inv-edit_out :
    (queue : Slot → List Ptr) (procs procs' : Ptr → Proc) (lists : Lists) (p : Ptr)
    → Inv queue p procs lists
    → ((q : Ptr) → q ≢ p → procs' q ≡ procs q)
    → (procs' p).priority ≤ max_priority
    → Inv queue p procs' lists
Inv-edit_out queue procs procs' lists p inv same h = record {
  chain = inv.chain;
  distinct = inv.distinct;
  within = inv.within;
  absent = inv.absent;
  at_home = λ k q on. rw (same q (inv.absent k q on)) (inv.at_home k q on);
  complete = λ q t ne. rw (same q ne) (inv.complete q t ne);
  bounded = λ q. elim (Bool-cases (q == p)) [
    | inl is ↦ rw (==→eq q p is) h
    | inr is ↦ rw (same q (==→ne q p is)) (inv.bounded q)
  ];
}

-- A write that keeps each process on its home.
pub Inv-edit :
    (queue : Slot → List Ptr) (out : Ptr) (procs procs' : Ptr → Proc) (lists : Lists)
    → Inv queue out procs lists
    → ((q : Ptr) → home (procs' q) ≡ home (procs q))
    → ((q : Ptr) → (procs' q).priority ≤ max_priority)
    → Inv queue out procs' lists
Inv-edit queue out procs procs' lists inv same small = record {
  chain = inv.chain;
  distinct = inv.distinct;
  within = inv.within;
  absent = inv.absent;
  at_home = λ k q on. same q ∙ inv.at_home k q on;
  complete = λ q t ne. rw (same q) (inv.complete q t ne);
  bounded = small;
}

pub put_self : (procs : Ptr → Proc) (p : Ptr) (v : Proc) → put procs p v p ≡ v
unfolding put
put_self procs p v = rw (==_refl p)

pub put_ne : (procs : Ptr → Proc) (p : Ptr) (v : Proc) (q : Ptr) → q ≢ p → put procs p v q ≡ procs q
unfolding put
put_ne procs p v q h = rw (==_ne h)

pub put-put_ne :
    (procs : Ptr → Proc) (p : Ptr) (v w : Proc) (q : Ptr)
    → q ≢ p
    → put (put procs p v) p w q ≡ procs q
put-put_ne procs p v w q h = put_ne (put procs p v) p w q h ∙ put_ne procs p v q h

-- A write to one process that keeps it on its home.
pub Inv-put :
    (queue : Slot → List Ptr) (out : Ptr) (procs : Ptr → Proc) (lists : Lists) (p : Ptr) (v : Proc)
    → Inv queue out procs lists
    → home v ≡ home (procs p)
    → v.priority ≤ max_priority
    → Inv queue out (put procs p v) lists
Inv-put queue out procs lists p v inv same small =
    Inv-edit queue out procs (put procs p v) lists inv
      (λ q. elim (Bool-cases (q == p)) [
        | inl is ↦ rw (==→eq q p is, put_self) same
        | inr is ↦ rw (put_ne procs p v q (==→ne q p is)) refl
      ])
      (λ q. elim (Bool-cases (q == p)) [
        | inl is ↦ rw (==→eq q p is, put_self) small
        | inr is ↦ rw (put_ne procs p v q (==→ne q p is)) (inv.bounded q)
      ])
