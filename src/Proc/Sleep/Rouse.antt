-- ===== src/Proc/Sleep/Rouse.antt =====
-- One round of the loop of wakeup1(): a process is passed over or woken.
use fp_sisop20_b.Prelude.{
  ℕ, suc, ◌≡◌, ◌≢◌, refl, sym, ap, ap₂, subst, ◌∙◌, inl, inr, Bool, true, false, not, ◌&&◌, List,
  [], ◌∷◌, ◌++◌, arith, ◌==◌, ==→eq, ==→ne, ==_ne, ==_refl, if◌then◌else◌, Bool-cases,
}
use fp_sisop20_b.Run.{ok}
use fp_sisop20_b.StateList.{
  Ptr, Slot, ready, Lists, success, add_to_state_list_end, remove_from_state_list, assign,
}
use fp_sisop20_b.StateList.Chain.{head, has, erase}
use fp_sisop20_b.StateList.Keep.{keep, keep_ext, snoc-append}
use fp_sisop20_b.StateList.Single.{assign_self, assign_ne}
use fp_sisop20_b.Proc.{Proc, ProcState, sleeping, runnable, Table, put, set_state}
use fp_sisop20_b.Proc.Invariant.{InTable, IsOrdered}
use fp_sisop20_b.Proc.Steps.{put_self, put_ne}
use fp_sisop20_b.Proc.Requeue.{assert_state-ok, requeued}
use fp_sisop20_b.Proc.Sleep.{wakeup_loop}

abbrev pub on_chan : Table → ℕ → Ptr → Bool
on_chan t chan q = (t.procs q).chan == chan

-- What wakeup1 makes of process `q` when `ys` are the sleeping processes still to be looked at.
abbrev pub woken : Table → ℕ → List Ptr → Ptr → Proc
woken t chan ys q =
    if has q ys && on_chan t chan q then set_state runnable (t.procs q) else t.procs q

-- The state of the loop behind `front`, and what it leaves.
pub record Woken (queue : Slot → List Ptr) (t : Table) (chan : ℕ) (front ys : List Ptr)
    (queue' : Slot → List Ptr) (t' : Table) : Type 0 where
  pub ordered : IsOrdered queue' t'
  pub procs : (q : Ptr) → t'.procs q ≡ woken t chan ys q
  pub quiet : t'.trace ≡ t.trace
  pub asleep : queue' Slot.sleep ≡ front ++ keep (λ q. not (on_chan t chan q)) ys
  pub readied :
      (i : ℕ)
      → queue' (ready i)
        ≡ queue (ready i) ++ keep (λ q. on_chan t chan q && (t.procs q).priority == i) ys
  pub elsewhere : (k : Slot) → k ≢ Slot.sleep → ((i : ℕ) → k ≢ ready i) → queue' k ≡ queue k

-- A process wakes up.
abbrev pub roused : Table → Ptr → Lists → Table
roused t y l = record t { procs = put t.procs y (set_state runnable (t.procs y)); lists = l }

module _ (chan : ℕ) where
  pub skip_run :
      (n y : ℕ) (ys : List Ptr) (t : Table)
      → y ≢ 0
      → InTable y
      → (t.procs y).state ≡ sleeping
      → on_chan t chan y ≡ false
      → t.lists.next y ≡ head ys
      → wakeup_loop (suc n) chan y t ≡ wakeup_loop n chan (head ys) t
  unfolding wakeup_loop
  skip_run n y ys t ne h st off e = rw (==_ne ne, assert_state-ok y sleeping t h st, off, e)

  pub rouse_run :
      (n y : ℕ) (ys : List Ptr) (t : Table) (l l' : Lists)
      → y ≢ 0
      → InTable y
      → (t.procs y).state ≡ sleeping
      → on_chan t chan y ≡ true
      → t.lists.next y ≡ head ys
      → remove_from_state_list Slot.sleep y t.lists ≡ ok success l
      → add_to_state_list_end (ready ((t.procs y).priority)) y l ≡ ok success l'
      → wakeup_loop (suc n) chan y t ≡ wakeup_loop n chan (head ys) (roused t y l')
  unfolding wakeup_loop
  rouse_run n y ys t l l' ne h st is e run run' =
      rw (==_ne ne, assert_state-ok y sleeping t h st, is, run, run', e)

-- A process that is passed over.
pub Woken-skip :
    (queue queue' : Slot → List Ptr) (t t' : Table) (chan y : ℕ) (front ys : List Ptr)
    → on_chan t chan y ≡ false
    → Woken queue t chan (front ++ y ∷ []) ys queue' t'
    → Woken queue t chan front (y ∷ ys) queue' t'
Woken-skip queue queue' t t' chan y front ys off w = record {
  ordered = w.ordered;
  procs = λ q. w.procs q ∙ elim (Bool-cases (q == y)) [
    | inl is ↦ let same : on_chan t chan q ≡ false = rw (==→eq q y is) off in ground arith
    | inr is ↦ ground arith
  ];
  quiet = w.quiet;
  asleep = w.asleep ∙ snoc-append front y (keep (λ q. not (on_chan t chan q)) ys) ∙ rw off;
  readied = λ i. w.readied i ∙ rw off;
  elsewhere = w.elsewhere;
}

-- The lists when `y` has gone from the sleep list to a ready list.
module _ (queue : Slot → List Ptr) (y pr : ℕ) where
  abbrev pub left : Slot → List Ptr
  left = assign queue Slot.sleep (erase y (queue Slot.sleep))

  abbrev pub moved : Slot → List Ptr
  moved = requeued queue y Slot.sleep (ready pr)

  left-ready : (i : ℕ) → left (ready i) ≡ queue (ready i)
  left-ready i = assign_ne queue Slot.sleep (erase y (queue Slot.sleep)) (ready i) (λ e. cc)

  pub moved-sleep : moved Slot.sleep ≡ erase y (queue Slot.sleep)
  moved-sleep =
      assign_ne left (ready pr) (left (ready pr) ++ y ∷ []) Slot.sleep (λ e. cc)
      ∙ assign_self queue Slot.sleep (erase y (queue Slot.sleep))

  moved-ready :
      (i : ℕ) → moved (ready i) ≡ (if pr == i then queue (ready i) ++ y ∷ [] else queue (ready i))
  moved-ready i = elim (Bool-cases (pr == i)) [
    | inl is ↦
        let e : pr ≡ i = ==→eq pr i is in
        rw is (
          subst (λ j. moved (ready j) ≡ queue (ready j) ++ y ∷ []) e
            (assign_self left (ready pr) (left (ready pr) ++ y ∷ [])
              ∙ ap (λ xs. xs ++ y ∷ []) (left-ready pr)))
    | inr is ↦
        let ne : pr ≢ i = ==→ne pr i is in
        rw is (
          assign_ne left (ready pr) (left (ready pr) ++ y ∷ []) (ready i) (λ e. ne (ground arith))
          ∙ left-ready i)
  ]

  moved-elsewhere : (k : Slot) → k ≢ Slot.sleep → ((i : ℕ) → k ≢ ready i) → moved k ≡ queue k
  moved-elsewhere k ne nr =
      assign_ne left (ready pr) (left (ready pr) ++ y ∷ []) k (nr pr)
      ∙ assign_ne queue Slot.sleep (erase y (queue Slot.sleep)) k ne

set_state-chan : (st : ProcState) (q : Proc) → (set_state st q).chan ≡ q.chan
unfolding set_state
set_state-chan st q = refl

append_if :
    (b c : Bool) (xs : List Ptr) (y : Ptr) (zs : List Ptr)
    → c ≡ true
    → (if b then xs ++ y ∷ [] else xs) ++ zs ≡ xs ++ (if c && b then y ∷ zs else zs)
append_if true c xs y zs e = rw e (snoc-append xs y zs)
append_if false c xs y zs e = rw e refl

-- A process that is woken.
module _ (queue queue' : Slot → List Ptr) (t t' : Table) (chan y : ℕ) (l : Lists)
    (front ys : List Ptr) (is : on_chan t chan y ≡ true) (out : has y ys ≡ false) where
  others_same : (q : Ptr) → has q ys ≡ true → (roused t y l).procs q ≡ t.procs q
  others_same q i =
      put_ne t.procs y (set_state runnable (t.procs y)) q
        (λ e. let i' : has y ys ≡ true = subst (λ r. has r ys ≡ true) e i in cc)

  Woken_procs : (q : Ptr) → woken (roused t y l) chan ys q ≡ woken t chan (y ∷ ys) q
  Woken_procs q = elim (Bool-cases (q == y)) [
    | inl at ↦
        subst (λ r. woken (roused t y l) chan ys r ≡ woken t chan (y ∷ ys) r) (sym (==→eq q y at))
          (rw (out, ==_refl y, is) (put_self t.procs y (set_state runnable (t.procs y))))
    | inr off ↦ rw (put_ne t.procs y (set_state runnable (t.procs y)) q (==→ne q y off), off) refl
  ]

  pub Woken-rouse :
      queue Slot.sleep ≡ front ++ y ∷ ys
      → has y front ≡ false
      → Woken (moved queue y ((t.procs y).priority)) (roused t y l) chan front ys queue' t'
      → Woken queue t chan front (y ∷ ys) queue' t'
  Woken-rouse e out_front w = record {
    ordered = w.ordered;
    procs = λ q. w.procs q ∙ Woken_procs q;
    quiet = w.quiet;
    asleep =
        w.asleep
        ∙ ap (λ xs. front ++ xs)
            (keep_ext (λ q. not (on_chan (roused t y l) chan q)) (λ q. not (on_chan t chan q)) ys
                (λ q i. rw (others_same q i) refl)
              ∙ rw is);
    readied = λ i.
        w.readied i
        ∙ ap₂ ◌++◌ (moved-ready queue y ((t.procs y).priority) i) (
            keep_ext _ (λ q. on_chan t chan q && (t.procs q).priority == i) ys
              (λ q j. rw (others_same q j) refl))
        ∙ append_if ((t.procs y).priority == i) (on_chan t chan y) (queue (ready i)) y
            (keep (λ q. on_chan t chan q && (t.procs q).priority == i) ys) is;
    elsewhere =
        λ k ne nr. w.elsewhere k ne nr ∙ moved-elsewhere queue y ((t.procs y).priority) k ne nr;
  }
