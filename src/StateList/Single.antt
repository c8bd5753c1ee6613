-- ===== src/StateList/Single.antt =====
-- Each list operation of proc.c on the chain of the one list that it is given.
use mathlib.Core.Logic.{if_pos, if_neg}
use fp_sisop20_b.Prelude.{
  ◌≤◌, ◌≡◌, ◌≢◌, refl, inl, inr, true, false, List, [], ◌∷◌, ◌++◌, arith, ◌==◌, ==_refl, ==→eq,
  ==→ne, Bool-cases, update, length, subst,
}
use fp_sisop20_b.Run.{ok}
use fp_sisop20_b.StateList.{
  Ptr, Slot, Lists, success, nproc, assign, in_range, add_to_state_list_head, add_to_state_list_end,
  remove_from_state_list, remove_head,
}
use fp_sisop20_b.StateList.Chain.{has, Distinct, Chain, Chain-frame, erase}
use fp_sisop20_b.StateList.Walk.{
  last, before, has-last, has-before, last_loop-last, remove_loop-hit, Chain-snoc, Chain-unlink,
}

pub assign_self {ℓ} : {A : Type ℓ} (f : Slot → A) (k : Slot) (v : A) → assign f k v k ≡ v
assign_self f k v = if_pos _ refl v (f k)

pub assign_ne {ℓ} :
    {A : Type ℓ} (f : Slot → A) (k : Slot) (v : A) (j : Slot) → j ≢ k → assign f k v j ≡ f j
assign_ne f k v j h = if_neg _ h v (f j)

-- List `k` has become `ys`; no other head has changed, and no `next` outside `p` and the old list.
pub record Moved (k : Slot) (p : Ptr) (xs ys : List Ptr) (l l' : Lists) : Type 0 where
  pub chain : Chain l'.next (l'.head k) ys
  pub heads : (j : Slot) → j ≢ k → l'.head j ≡ l.head j
  pub others : (q : Ptr) → has q xs ≡ false → q ≢ p → l'.next q ≡ l.next q

-- Taking the first node, whatever comes behind it.
first-Moved :
    (k : Slot) (p : Ptr) (l : Lists) (xs : List Ptr)
    → in_range k ≡ true
    → Distinct (p ∷ xs)
    → Chain l.next (l.head k) (p ∷ xs)
    → Moved k p
        (p ∷ xs)
        xs
        l
        (record { next = update l.next p 0; head = assign l.head k (l.next p) })
first-Moved k p l xs valid d (e, ne, c) = record {
  chain =
      rw (assign_self l.head k (l.next p))
        (Chain-frame l.next (update l.next p 0) (l.next p) xs (λ q i. ground (arith, d)) c);
  heads = assign_ne l.head k (l.next p);
  others = λ q _ h. ground arith;
}

module _ (k : Slot) (p : Ptr) (l : Lists) (valid : in_range k ≡ true) where
  pub add_head-Moved :
      (xs : List Ptr)
      → p ≢ 0
      → has p xs ≡ false
      → Chain l.next (l.head k) xs
      → (l' : Lists) × (add_to_state_list_head k p l ≡ ok success l') × Moved k p xs (p ∷ xs) l l'
  unfolding add_to_state_list_head
  add_head-Moved [] ne out c = (
    record { next = update l.next p 0; head = assign l.head k p },
    ground arith,
    record {
      chain = (assign_self l.head k p, ne, update_at l.next 0);
      heads = assign_ne l.head k p;
      others = λ q _ h. ground arith;
    },
  )
    where
      update_at : (f : Ptr → Ptr) (v : Ptr) → update f p v p ≡ v
      update_at f v = ground arith
  add_head-Moved (x ∷ xs) ne out (e, nx, c) = (
    record { next = update l.next p x; head = assign l.head k p },
    ground (arith, assign_self l.head k p),
    record {
      chain = (
        assign_self l.head k p,
        ne,
        let at_p : update l.next p x p ≡ x = ground arith in
            rw at_p (
              Chain-frame l.next (update l.next p x) x (x ∷ xs) (λ q i. ground arith)
                (refl, nx, c)),
      );
      heads = assign_ne l.head k p;
      others = λ q _ h. ground arith;
    },
  )

  pub add_end-Moved :
      (xs : List Ptr)
      → p ≢ 0
      → has p xs ≡ false
      → Distinct xs
      → length xs ≤ nproc
      → Chain l.next (l.head k) xs
      → (l' : Lists) × (add_to_state_list_end k p l ≡ ok success l')
        × Moved k p xs (xs ++ p ∷ []) l l'
  unfolding add_to_state_list_end
  add_end-Moved [] ne out d short c = (
    record { next = update l.next p 0; head = assign l.head k p },
    ground arith,
    record {
      chain = (assign_self l.head k p, ne, ground arith);
      heads = assign_ne l.head k p;
      others = λ q _ h. ground arith;
    },
  )
  add_end-Moved (x ∷ xs) ne out d short (e, nx, c) = (
    record l { next = update (update l.next (last x xs) p) p 0 },
    ground (arith, last_loop-last nproc x xs l c),
    record {
      chain = Chain-snoc l.next p (l.head k) x xs ne (e, nx, c) d out;
      heads = λ j h. refl;
      others = λ q h h'. ground (arith, has-last x xs);
    },
  )

  remove_front-Moved :
      (xs : List Ptr)
      → Distinct (p ∷ xs)
      → Chain l.next (l.head k) (p ∷ xs)
      → (l' : Lists) × (remove_from_state_list k p l ≡ ok success l')
        × Moved k p (p ∷ xs) (erase p (p ∷ xs)) l l'
  unfolding remove_from_state_list
  remove_front-Moved xs d (e, ne, c) =
      let rest : xs ≡ erase p (p ∷ xs) = rw (==_refl p) in
      (
        record { next = update l.next p 0; head = assign l.head k (l.next p) },
        ground arith,
        subst
            (λ ys.
              Moved k p (p ∷ xs) ys l
                (record { next = update l.next p 0; head = assign l.head k (l.next p) }))
            rest (first-Moved k p l xs valid d (e, ne, c)),
      )

  pub remove_head-Moved :
      (xs : List Ptr)
      → Distinct (p ∷ xs)
      → Chain l.next (l.head k) (p ∷ xs)
      → (l' : Lists) × (remove_head k l ≡ ok p l') × Moved k p (p ∷ xs) xs l l'
  unfolding remove_head
  remove_head-Moved xs d (e, ne, c) = (
    record { next = update l.next p 0; head = assign l.head k (l.next p) },
    ground arith,
    first-Moved k p l xs valid d (e, ne, c),
  )

  pub remove-Moved :
      (xs : List Ptr)
      → p ≢ 0
      → has p xs ≡ true
      → Distinct xs
      → length xs ≤ nproc
      → Chain l.next (l.head k) xs
      → (l' : Lists) × (remove_from_state_list k p l ≡ ok success l')
        × Moved k p xs (erase p xs) l l'
  unfolding remove_from_state_list
  remove-Moved [] ne hit d short c = cc
  remove-Moved (x ∷ xs) ne hit d short (e, nx, c) = elim (Bool-cases (p == x)) [
    | inl is ↦
        subst
          (λ y.
            Distinct (y ∷ xs)
            → Chain l.next (l.head k) (y ∷ xs)
            → (l' : Lists) × (remove_from_state_list k p l ≡ ok success l')
              × Moved k p (y ∷ xs) (erase p (y ∷ xs)) l l')
          (==→eq p x is) (remove_front-Moved xs) d (e, nx, c)
    | inr is ↦ (
      record l { next = update (update l.next (before p x xs) (l.next p)) p 0 },
      ground (arith, remove_loop-hit p nproc x (l.next x) xs l c),
      record {
        chain =
            rw is
              (Chain-unlink l.next p (l.head k) x xs (==→ne p x is) (e, nx, c) d (ground arith));
        heads = λ j h. refl;
        others = λ q h h'. ground (arith, has-before p x xs);
      },
    )
  ]
