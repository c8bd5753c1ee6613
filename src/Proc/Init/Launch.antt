-- ===== src/Proc/Init/Launch.antt =====
-- The last step of userinit: the first process from the embryos to the ready list, with the heads of
-- the other lists set to null.
use fp_sisop20_b.Prelude.{
  ◌≡◌, ◌≢◌, refl, sym, ap, ap₂, subst, fun_ext, ◌∙◌, true, update, List, [], ◌∷◌, arith,
}
use fp_sisop20_b.Run.{ok, one_state}
use fp_sisop20_b.StateList.{
  Ptr, Slot, Slot-discrete, ready, Lists, success, assign, in_range, store_head,
  add_to_state_list_head, remove_from_state_list,
}
use fp_sisop20_b.StateList.Chain.{Chain, erase}
use fp_sisop20_b.StateList.Single.{assign_self, assign_ne}
use fp_sisop20_b.Proc.{Proc, runnable, embryo, Table, put, set_state}
use fp_sisop20_b.Proc.Invariant.{InTable, slot_of, home, Inv, IsOrdered}
use fp_sisop20_b.Proc.Steps.{remove_step, add_head_step, Inv-edit_out, put_self, put_ne}
use fp_sisop20_b.Proc.Requeue.{
  assert_state-ok, set_state-state, set_state-priority, stacked, stacked_from, stacked_ne,
}
use fp_sisop20_b.Proc.Init.{clear_heads, launch}

-- Writing null where there is null.
store_same : (k : Slot) (l : Lists) → in_range k ≡ true → l.head k ≡ 0 → store_head k 0 l ≡ ok tt l
unfolding store_head
store_same k l valid e = rw valid (ap (λ h. ok tt (record l { head = h })) same)
  where
    same : assign l.head k 0 ≡ l.head
    same = fun_ext (λ j. elim (Slot-discrete j k) [
      | yes is ↦ ap (assign l.head k 0) is ∙ assign_self l.head k 0 ∙ sym e ∙ ap l.head (sym is)
      | no ne ↦ assign_ne l.head k 0 j ne
    ])

abbrev AllNull : List Slot → Lists → Type 0
AllNull [] l = Unit {0}
AllNull (k ∷ ks) l = ((in_range k ≡ true) × (l.head k ≡ 0)) × AllNull ks l

clear_heads_lem : (ks : List Slot) (t : Table) → AllNull ks t.lists → clear_heads ks t ≡ ok tt t
unfolding clear_heads
clear_heads_lem [] t n = refl
clear_heads_lem (k ∷ ks) t ((valid, e), n) =
    rw (store_same k t.lists valid e) (clear_heads_lem ks t n)

-- With the list empty, the two assignments do what addToStateListHead does.
abbrev alone : Slot → Ptr → Lists → Lists
alone k p l = record { next = update l.next p 0; head = assign l.head k p }

alone_run :
    (k : Slot) (p : Ptr) (l : Lists)
    → in_range k ≡ true
    → p ≢ 0
    → l.head k ≡ 0
    → add_to_state_list_head k p l ≡ ok success (alone k p l)
unfolding add_to_state_list_head
alone_run k p l valid ne e = ground arith

store_run :
    (k : Slot) (p : Ptr) (l : Lists)
    → in_range k ≡ true
    → store_head k p l ≡ ok tt (record l { head = assign l.head k p })
unfolding store_head
store_run k p l valid = rw valid refl

abbrev launched : Table → Ptr → Lists → Table
launched t p l = record t { procs = put t.procs p (set_state runnable (t.procs p)); lists = l }

abbrev others : List Slot
others = ready 1 ∷ ready 2 ∷ Slot.sleep ∷ Slot.zombie ∷ Slot.running ∷ Slot.embryo ∷ []

launch_run :
    (t : Table) (p : Ptr) (l : Lists)
    → InTable p
    → (t.procs p).state ≡ embryo
    → remove_from_state_list Slot.embryo p t.lists ≡ ok success l
    → AllNull others (alone (ready 0) p l)
    → launch p t ≡ ok tt (launched t p (alone (ready 0) p l))
unfolding launch
launch_run t p l h st run null =
    rw (assert_state-ok p embryo t h st, run, store_run (ready 0) p l refl)
      (clear_heads_lem others (launched t p (alone (ready 0) p l)) null)

null_head :
    {queue : Slot → List Ptr} {out : Ptr} {procs : Ptr → Proc} {lists : Lists} (k : Slot)
    → Inv queue out procs lists
    → queue k ≡ []
    → lists.head k ≡ 0
null_head {lists} k inv e = subst (Chain lists.next (lists.head k)) e (inv.chain k)

-- What userinit() has on its lists when allocproc() is back: the free ones, and the new process.
pub record OneEmbryo (queue : Slot → List Ptr) (t : Table) (p : Ptr) : Type 0 where
  pub ordered : IsOrdered queue t
  pub in_table : InTable p
  pub is_embryo : (t.procs p).state ≡ embryo
  pub at_top : (t.procs p).priority ≡ 0
  pub only : queue Slot.embryo ≡ p ∷ []
  pub empty : (k : Slot) → k ≢ Slot.free → k ≢ Slot.embryo → queue k ≡ []

pub record Launched (queue : Slot → List Ptr) (t : Table) (p : Ptr) (t' : Table) : Type 0 where
  pub run : launch p t ≡ ok tt t'
  pub ordered : IsOrdered (stacked queue p Slot.embryo (ready 0)) t'
  pub self : t'.procs p ≡ set_state runnable (t.procs p)
  pub same : (r : Ptr) → r ≢ p → t'.procs r ≡ t.procs r
  pub trace : t'.trace ≡ t.trace

module _ (queue : Slot → List Ptr) (t : Table) (p : Ptr) (o : OneEmbryo queue t p) where
  abbrev left : Slot → List Ptr
  left = assign queue Slot.embryo (erase p (queue Slot.embryo))

  abbrev changed : Ptr → Proc
  changed = put t.procs p (set_state runnable (t.procs p))

  to_ready :
      (l : Lists) × (remove_from_state_list Slot.embryo p t.lists ≡ ok success l)
      × Inv (stacked queue p Slot.embryo (ready 0)) 0 changed (alone (ready 0) p l)
  to_ready =
      let (l, run, inv) =
        remove_step queue t.procs t.lists Slot.embryo p o.ordered o.in_table
          (ap (λ s. slot_of s ((t.procs p).priority)) o.is_embryo) in
      let e : changed p ≡ set_state runnable (t.procs p) = put_self t.procs p _ in
      let null : l.head (ready 0) ≡ 0 = null_head (ready 0) inv (
        assign_ne queue Slot.embryo _ (ready 0) (λ d. cc)
        ∙ o.empty (ready 0) (λ d. cc) (λ d. cc)) in
      let inv' =
        Inv-edit_out left t.procs changed l p inv (put_ne t.procs p _)
          (rw (e, set_state-priority) (o.ordered.bounded p)) in
      let (l', run', inv'') = add_head_step left changed l (ready 0) p inv' o.in_table (
        ap home e
        ∙ ap₂ slot_of (set_state-state runnable (t.procs p))
            (set_state-priority runnable (t.procs p) ∙ o.at_top)) in
      let is : l' ≡ alone (ready 0) p l =
        one_state run' (alone_run (ready 0) p l refl (λ z. omega (arith, z, o.in_table)) null) in
      (l, run, subst (Inv _ 0 changed) is inv'')

  stays_empty :
      (k : Slot)
      → k ≢ Slot.free
      → k ≢ Slot.embryo
      → k ≢ ready 0
      → stacked queue p Slot.embryo (ready 0) k ≡ []
  stays_empty k nf ne nr = stacked_ne queue p Slot.embryo (ready 0) k ne nr ∙ o.empty k nf ne

  embryo_empty : stacked queue p Slot.embryo (ready 0) Slot.embryo ≡ []
  embryo_empty =
      stacked_from queue p Slot.embryo (ready 0) (λ d. cc) ∙ ap (erase p) o.only ∙ ground arith

  all-null :
      (l : Lists) → Inv (stacked queue p Slot.embryo (ready 0)) 0 changed l → AllNull others l
  all-null l inv = (
    null (ready 1) refl (λ d. cc) (λ d. cc) (λ d. cc),
    (
      null (ready 2) refl (λ d. cc) (λ d. cc) (λ d. cc),
      (
        null Slot.sleep refl (λ d. cc) (λ d. cc) (λ d. cc),
        (
          null Slot.zombie refl (λ d. cc) (λ d. cc) (λ d. cc),
          (
            null Slot.running refl (λ d. cc) (λ d. cc) (λ d. cc),
            ((refl, null_head Slot.embryo inv embryo_empty), tt),
          ),
        ),
      ),
    ),
  )
    where
      null :
          (k : Slot)
          → in_range k ≡ true
          → k ≢ Slot.free
          → k ≢ Slot.embryo
          → k ≢ ready 0
          → (in_range k ≡ true) × (l.head k ≡ 0)
      null k valid nf ne nr = (valid, null_head k inv (stays_empty k nf ne nr))

  pub launch_lem : (t' : Table) × Launched queue t p t'
  launch_lem =
      let (l, run, inv) = to_ready in
      (
        launched t p (alone (ready 0) p l),
        record {
          run = launch_run t p l o.in_table o.is_embryo run (all-null _ inv);
          ordered = inv;
          self = put_self t.procs p _;
          same = put_ne t.procs p _;
          trace = refl;
        },
      )
