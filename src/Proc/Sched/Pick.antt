-- ===== src/Proc/Sched/Pick.antt =====
-- The scheduler's choice: the first process of the first ready list that has one.
use fp_sisop20_b.Prelude.{
  ℕ, ◌≡◌, refl, sym, ap, subst, ◌∙◌, ◌⊎◌, inl, inr, true, List, [], ◌∷◌, ◌++◌, map, arith, ==_ne,
}
use fp_sisop20_b.Run.{ok}
use fp_sisop20_b.StateList.{Ptr, Slot, ready, Lists, assign, in_range, load_head, remove_head}
use fp_sisop20_b.StateList.Chain.{has, Chain-head, head}
use fp_sisop20_b.Proc.{runnable, Table}
use fp_sisop20_b.Proc.Invariant.{InTable, Inv, IsOrdered}
use fp_sisop20_b.Proc.Steps.{remove_head_step}
use fp_sisop20_b.Proc.Homes.{home-ready, home-priority}
use fp_sisop20_b.Proc.Requeue.{assert_state-ok}
use fp_sisop20_b.Proc.Find.{AllInRange}
use fp_sisop20_b.Proc.Sched.{pick}

-- The ready processes of these lists, in the order in which they run.
abbrev pub in_order : (Slot → List Ptr) → List ℕ → List Ptr
in_order queue [] = []
in_order queue (i ∷ is) = queue (ready i) ++ in_order queue is

pick-skip :
    (k : Slot) (ks : List Slot) (t : Table)
    → in_range k ≡ true
    → t.lists.head k ≡ 0
    → pick (k ∷ ks) t ≡ pick ks t
unfolding pick load_head
pick-skip k ks t r e = rw (r, e) refl

pick-take :
    (k : Slot) (ks : List Slot) (p : Ptr) (t : Table) (l : Lists)
    → in_range k ≡ true
    → t.lists.head k ≡ p
    → InTable p
    → (t.procs p).state ≡ runnable
    → remove_head (ready ((t.procs p).priority)) t.lists ≡ ok p l
    → pick (k ∷ ks) t ≡ ok p (record t { lists = l })
unfolding pick load_head
pick-take k ks p t l r e h st run =
    rw
      (
        r,
        e,
        ==_ne {a = p} {b = 0} (λ z. omega arith),
        assert_state-ok p runnable t h st,
        run,
        ==_ne {a = p} {b = 0} (λ z. omega arith),
      )
      refl

pick-nil : (t : Table) → pick [] t ≡ ok 0 t
unfolding pick
pick-nil t = refl

-- The process `p` has been taken off the ready list whose first it was.
pub record Picked (queue : Slot → List Ptr) (t : Table) (order : List Ptr) (p : Ptr) (l : Lists)
    : Type 0 where
  pub level : ℕ
  pub rest : List Ptr
  pub is_first : head order ≡ p
  pub from : queue (ready level) ≡ p ∷ rest
  pub ordered : Inv (assign queue (ready level) rest) p t.procs l

abbrev pub Choice : (Slot → List Ptr) → Table → List ℕ → Type 0
Choice queue t is =
    ((in_order queue is ≡ []) × (pick (map ready is) t ≡ ok 0 t))
    ⊎ ((p : Ptr) × (l : Lists) × (pick (map ready is) t ≡ ok p (record t { lists = l }))
        × Picked queue t (in_order queue is) p l)

pub pick_lem :
    (queue : Slot → List Ptr) (t : Table) (is : List ℕ)
    → IsOrdered queue t
    → AllInRange (map ready is)
    → Choice queue t is
pick_lem queue t [] inv r = inl (refl, pick-nil t)
pick_lem queue t (i ∷ is) inv (r, rs) = by_list (queue (ready i)) refl (pick_lem queue t is inv rs)
  where
    chained : (xs : List Ptr) → queue (ready i) ≡ xs → t.lists.head (ready i) ≡ head xs
    chained xs e =
        Chain-head t.lists.next (t.lists.head (ready i)) (queue (ready i)) (inv.chain (ready i))
        ∙ ap head e

    by_list : (xs : List Ptr) → queue (ready i) ≡ xs → Choice queue t is → Choice queue t (i ∷ is)
    by_list [] e others =
        let skip = pick-skip (ready i) (map ready is) t r (chained [] e) in
        let same : in_order queue (i ∷ is) ≡ in_order queue is =
          ap (λ xs. xs ++ in_order queue is) e in
        elim others [
          | inl (none, run) ↦ inl (same ∙ none, skip ∙ run)
          | inr (p, l, run, w) ↦ inr (
            p,
            l,
            skip ∙ run,
            record {
              level = w.level;
              rest = w.rest;
              is_first = ap head same ∙ w.is_first;
              from = w.from;
              ordered = w.ordered;
            },
          )
        ]
    by_list (p ∷ xs) e others =
        let on : has p (queue (ready i)) ≡ true = rw e (ground arith) in
        let at = inv.at_home (ready i) p on in
        let (l, run, inv') = remove_head_step queue t.procs t.lists (ready i) p xs inv e in
        inr (
          p,
          l,
          pick-take (ready i) (map ready is) p t l r (chained (p ∷ xs) e)
              (inv.within (ready i) p on) (home-ready (t.procs p) i at)
              (subst (λ m. remove_head (ready m) t.lists ≡ ok p l)
                (sym (home-priority (t.procs p) i at)) run),
          record {
            level = i;
            rest = xs;
            is_first = ap (λ ys. head (ys ++ in_order queue is)) e;
            from = e;
            ordered = inv';
          },
        )
