-- ===== src/Proc/Sched/Promote.antt =====
-- promoteAll(), one list at a time: a ready list moves up, and the processes of another list get
-- their new priority where they are.
use fp_sisop20_b.Prelude.{
  ℕ, zero, suc, ◌-◌, ◌≤◌, ◌<◌, ◌≡◌, ◌≢◌, refl, sym, ap, subst, ◌∙◌, inl, inr, true, false, List, [],
  ◌∷◌, ◌++◌, arith, ◌==◌, ==→eq, ==→ne, ==_ne, ==_refl, if◌then◌else◌, Bool-cases, length,
  append-nil,
}
use fp_sisop20_b.Run.{ok}
use fp_sisop20_b.StateList.{
  Ptr, Slot, ready, Lists, success, max_priority, add_to_state_list_end, remove_from_state_list,
  assign,
}
use fp_sisop20_b.StateList.Chain.{head, Chain-next, has, Distinct, Chain, erase}
use fp_sisop20_b.StateList.Keep.{snoc-append}
use fp_sisop20_b.StateList.Single.{assign_self, assign_ne}
use fp_sisop20_b.Proc.{Proc, runnable, Table, put}
use fp_sisop20_b.Proc.Invariant.{InTable, slot_of, home, IsOrdered}
use fp_sisop20_b.Proc.Steps.{put_self, put_ne}
use fp_sisop20_b.Proc.Homes.{home-ready, home-priority}
use fp_sisop20_b.Proc.Requeue.{assert_state-ok, requeued, requeue_step}
use fp_sisop20_b.Proc.Sched.{promote, promote_ready, promote_in_place}

pub promote-state : (q : Proc) → (promote q).state ≡ q.state
unfolding promote
promote-state q = ground arith

pub promote-priority : (q : Proc) → (promote q).priority ≡ q.priority - 1
unfolding promote
promote-priority q = ground arith

pub promote_zero : (q : Proc) → q.priority ≡ 0 → promote q ≡ q
unfolding promote
promote_zero q e = rw e

-- What is left of a table when the processes `ys` are promoted.
abbrev pub raised : (Ptr → Proc) → List Ptr → Ptr → Proc
raised procs ys q = if has q ys then promote (procs q) else procs q

-- The loop on ready list `suc j`, whose processes `ys` it has still to move.
pub record Promoted (queue : Slot → List Ptr) (t : Table) (j : ℕ) (ys : List Ptr)
    (queue' : Slot → List Ptr) (t' : Table) : Type 0 where
  pub ordered : IsOrdered queue' t'
  pub procs : (q : Ptr) → t'.procs q ≡ raised t.procs ys q
  pub quiet : t'.trace ≡ t.trace
  pub emptied : queue' (ready (suc j)) ≡ []
  pub filled : queue' (ready j) ≡ queue (ready j) ++ ys
  pub elsewhere : (k : Slot) → k ≢ ready (suc j) → k ≢ ready j → queue' k ≡ queue k

abbrev lifted : Table → Ptr → Lists → Table
lifted t y l = record t { procs = put t.procs y (promote (t.procs y)); lists = l }

move_run :
    (n y : ℕ) (ys : List Ptr) (t : Table) (l l' : Lists)
    → y ≢ 0
    → InTable y
    → (t.procs y).state ≡ runnable
    → t.lists.next y ≡ head ys
    → remove_from_state_list (ready ((t.procs y).priority)) y t.lists ≡ ok success l
    → add_to_state_list_end (ready ((put t.procs y (promote (t.procs y)) y).priority)) y l
      ≡ ok success l'
    → promote_ready (suc n) y t ≡ promote_ready n (head ys) (lifted t y l')
unfolding promote_ready
move_run n y ys t l l' ne h st e run run' =
    rw (==_ne ne, assert_state-ok y runnable t h st, run, run', e)

-- The lists when `y` has gone up by one.
module _ (queue : Slot → List Ptr) (y j : ℕ) where
  abbrev up : Slot → List Ptr
  up = requeued queue y (ready (suc j)) (ready j)

  abbrev left : Slot → List Ptr
  left = assign queue (ready (suc j)) (erase y (queue (ready (suc j))))

  left-ready : left (ready j) ≡ queue (ready j)
  left-ready = assign_ne queue (ready (suc j)) _ (ready j) (λ d. ground arith)

  up-from : (ys : List Ptr) → queue (ready (suc j)) ≡ y ∷ ys → up (ready (suc j)) ≡ ys
  up-from ys e =
      assign_ne left (ready j) _ (ready (suc j)) (λ d. ground arith)
      ∙ assign_self queue (ready (suc j)) _
      ∙ ap (erase y) e
      ∙ rw (==_refl y)

  up-to : up (ready j) ≡ queue (ready j) ++ y ∷ []
  up-to = assign_self left (ready j) _ ∙ ap (λ xs. xs ++ y ∷ []) left-ready

  up-elsewhere : (k : Slot) → k ≢ ready (suc j) → k ≢ ready j → up k ≡ queue k
  up-elsewhere k ne ne' = assign_ne left (ready j) _ k ne' ∙ assign_ne queue (ready (suc j)) _ k ne

raised_step :
    (procs : Ptr → Proc) (y : Ptr) (ys : List Ptr) (q : Ptr)
    → has y ys ≡ false
    → raised (put procs y (promote (procs y))) ys q ≡ raised procs (y ∷ ys) q
raised_step procs y ys q out = elim (Bool-cases (q == y)) [
  | inl is ↦
      subst (λ r. raised (put procs y (promote (procs y))) ys r ≡ raised procs (y ∷ ys) r)
        (sym (==→eq q y is)) (rw (out, ==_refl y) (put_self procs y (promote (procs y))))
  | inr off ↦ rw (put_ne procs y (promote (procs y)) q (==→ne q y off), off) refl
]

promoted-priority :
    (procs : Ptr → Proc) (y j : ℕ)
    → (procs y).priority ≡ suc j
    → (put procs y (promote (procs y)) y).priority ≡ j
promoted-priority procs y j e =
    ap (λ q. q.priority) (put_self procs y (promote (procs y)))
    ∙ promote-priority (procs y)
    ∙ omega arith

promoted-home :
    (procs : Ptr → Proc) (y j : ℕ)
    → (procs y).state ≡ runnable
    → (procs y).priority ≡ suc j
    → home (put procs y (promote (procs y)) y) ≡ ready j
promoted-home procs y j st e =
    ap (λ s. slot_of s ((put procs y (promote (procs y)) y).priority))
      (ap (λ q. q.state) (put_self procs y (promote (procs y))) ∙ promote-state (procs y) ∙ st)
    ∙ ap ready (promoted-priority procs y j e)

-- The first process of a ready list is moved up.
lift_step :
    (queue : Slot → List Ptr) (t : Table) (y j : ℕ)
    → IsOrdered queue t
    → InTable y
    → (t.procs y).state ≡ runnable
    → (t.procs y).priority ≡ suc j
    → (l l' : Lists) × (remove_from_state_list (ready ((t.procs y).priority)) y t.lists
        ≡ ok success l)
      × (add_to_state_list_end (ready ((put t.procs y (promote (t.procs y)) y).priority)) y l
          ≡ ok success l')
      × IsOrdered (up queue y j) (lifted t y l')
lift_step queue t y j inv h st e =
    let at : home (t.procs y) ≡ ready (suc j) =
      ap (λ s. slot_of s ((t.procs y).priority)) st ∙ ap ready e in
    let small = inv.bounded y in
    let (l, l', run, run', inv') =
      requeue_step queue t.procs (put t.procs y (promote (t.procs y))) t.lists y (ready (suc j))
        (ready j) inv h at (promoted-home t.procs y j st e) (put_ne t.procs y (promote (t.procs y)))
        (subst (λ m. m ≤ max_priority) (sym (promoted-priority t.procs y j e)) (omega arith)) in
    (
      l,
      l',
      subst (λ m. remove_from_state_list (ready m) y t.lists ≡ ok success l) (sym e) run,
      subst (λ m. add_to_state_list_end (ready m) y l ≡ ok success l')
          (sym (promoted-priority t.procs y j e)) run',
      inv',
    )

promote_ready-null : (n : ℕ) (t : Table) → promote_ready (suc n) 0 t ≡ ok tt t
unfolding promote_ready
promote_ready-null n t = refl

pub promote_ready-Promoted :
    (n : ℕ) (queue : Slot → List Ptr) (t : Table) (j : ℕ) (ys : List Ptr)
    → IsOrdered queue t
    → queue (ready (suc j)) ≡ ys
    → length ys < n
    → (queue' : Slot → List Ptr) × (t' : Table) × (promote_ready n (head ys) t ≡ ok tt t')
      × Promoted queue t j ys queue' t'
promote_ready-Promoted zero queue t j ys inv e h = absurd (omega arith)
promote_ready-Promoted (suc n) queue t j [] inv e h = (
  queue,
  t,
  promote_ready-null n t,
  record {
    ordered = inv;
    procs = λ q. refl;
    quiet = refl;
    emptied = e;
    filled = sym (append-nil (queue (ready j)));
    elsewhere = λ k ne ne'. refl;
  },
)
promote_ready-Promoted (suc n) queue t j (y ∷ ys) inv e h =
    let on : has y (queue (ready (suc j))) ≡ true = rw e (ground arith) in
    let at = inv.at_home (ready (suc j)) y on in
    let d : Distinct (y ∷ ys) = subst Distinct e (inv.distinct (ready (suc j))) in
    let c =
      Chain-next t.lists.next (t.lists.head (ready (suc j))) [] y ys
        (subst (Chain t.lists.next (t.lists.head (ready (suc j)))) e (inv.chain (ready (suc j)))) in
    let in_table = inv.within (ready (suc j)) y on in
    let st = home-ready (t.procs y) (suc j) at in
    let pr = home-priority (t.procs y) (suc j) at in
    let (l, l', run, run', inv') = lift_step queue t y j inv in_table st pr in
    let (queue', t', rest, w) =
      promote_ready-Promoted n (up queue y j) (lifted t y l') j ys inv' (up-from queue y j ys e)
        (omega arith) in
    (
      queue',
      t',
      move_run n y ys t l l' c.1 in_table st c.0 run run' ∙ rest,
      record {
        ordered = w.ordered;
        procs = λ q. w.procs q ∙ raised_step t.procs y ys q d.0;
        quiet = w.quiet;
        emptied = w.emptied;
        filled =
            w.filled ∙ ap (λ xs. xs ++ ys) (up-to queue y j) ∙ snoc-append (queue (ready j)) y ys;
        elsewhere = λ k ne ne'. w.elsewhere k ne ne' ∙ up-elsewhere queue y j k ne ne';
      },
    )

-- The processes of a list get their new priority in place.
pub promote_in_place-raised :
    (n p : ℕ) (xs : List Ptr) (t : Table)
    → Chain t.lists.next p xs
    → Distinct xs
    → length xs < n
    → (procs : Ptr → Proc) × (promote_in_place n p t ≡ ok tt (record t { procs = procs }))
      × ((q : Ptr) → procs q ≡ raised t.procs xs q)
unfolding promote_in_place
promote_in_place-raised zero p xs t c d h = absurd (omega arith)
promote_in_place-raised (suc n) p [] t c d h = (t.procs, rw c refl, λ q. refl)
promote_in_place-raised (suc n) p (x ∷ xs) t (e, ne, c) d h =
    let t' = record t { procs = put t.procs x (promote (t.procs x)) } in
    let (procs, run, is) = promote_in_place-raised n (t.lists.next x) xs t' c d.1 (omega arith) in
    (procs, rw (e, ==_ne ne) run, λ q. is q ∙ raised_step t.procs x xs q d.0)
