-- ===== src/Proc/Sleep/Reset.antt =====
-- What setpriority() makes of a process, and of the lists.
use fp_sisop20_b.Prelude.{
  ℕ, zero, suc, ◌≤◌, ◌≡◌, ◌≢◌, refl, sym, ap, subst, ◌∙◌, inl, inr, true, false, List, [], ◌∷◌,
  arith, ◌==◌, ==→eq, ==→ne, if◌then◌else◌, Bool-cases,
}
use fp_sisop20_b.StateList.{Ptr, Slot, ready, max_priority}
use fp_sisop20_b.Proc.{
  Proc, ProcState, unused, embryo, sleeping, runnable, running, zombie, Table, put, ready_slots,
  code,
}
use fp_sisop20_b.Proc.Invariant.{InTable, slot_of, home, Inv, IsOrdered}
use fp_sisop20_b.Proc.Steps.{Inv-edit, put_self, put-put_ne}
use fp_sisop20_b.Proc.Requeue.{requeued}
use fp_sisop20_b.Proc.Homes.{is_active}
use fp_sisop20_b.Proc.Find.{OneOf}
use fp_sisop20_b.Proc.Sleep.{set_priority, reset_budget}

-- The process that setpriority() leaves: its priority and budget are set, and nothing else.
abbrev pub reset : ℕ → Proc → Proc
reset n q = record q { priority = n; budget = 120 }

reset_lem : (n : ℕ) (q : Proc) → reset_budget (set_priority n q) ≡ reset n q
unfolding set_priority reset_budget
reset_lem n q = refl

pub set_priority-priority : (n : ℕ) (q : Proc) → (set_priority n q).priority ≡ n
unfolding set_priority
set_priority-priority n q = refl

pub reset-priority : (n : ℕ) (q : Proc) → (reset n q).priority ≡ n
reset-priority n q = refl

pub reset-state : (n : ℕ) (q : Proc) → (reset n q).state ≡ q.state
reset-state n q = refl

-- The lists afterwards: a runnable process goes to the end of the ready list of its new priority.
abbrev pub reset_queue : (Slot → List Ptr) → Table → Ptr → ℕ → Slot → List Ptr
reset_queue queue t p n =
    if code ((t.procs p).state) == code runnable
    then requeued queue p (ready ((t.procs p).priority)) (ready n)
    else queue

pub record Reset (queue : Slot → List Ptr) (t : Table) (pid n : ℕ) (p : Ptr) (t' : Table)
    : Type 0 where
  pub in_table : InTable p
  pub has_pid : (t.procs p).pid ≡ pid
  pub active : is_active ((t.procs p).state) ≡ true
  pub changed : t'.procs p ≡ reset n (t.procs p)
  pub same : (q : Ptr) → q ≢ p → t'.procs q ≡ t.procs q
  pub ordered : IsOrdered (reset_queue queue t p n) t'
  pub quiet : t'.trace ≡ t.trace

pub ready-home : (n : ℕ) (q : Proc) → q.state ≡ runnable → home (reset n q) ≡ ready n
ready-home n q e =
    ap (λ s. slot_of s ((reset n q).priority)) (reset-state n q ∙ e) ∙ ap ready (reset-priority n q)

module _ (t : Table) (p n : ℕ) where
  unfoldable pub twice : Ptr → Proc
  twice =
      put (put t.procs p (set_priority n (t.procs p))) p
        (reset_budget (put t.procs p (set_priority n (t.procs p)) p))

  pub twice_self : twice p ≡ reset n (t.procs p)
  unfolding twice
  twice_self =
      put_self _ p _
      ∙ ap reset_budget (put_self t.procs p (set_priority n (t.procs p)))
      ∙ reset_lem n (t.procs p)

  pub twice-same : (q : Ptr) → q ≢ p → twice q ≡ t.procs q
  unfolding twice
  twice-same = put-put_ne t.procs p (set_priority n (t.procs p)) _

-- The lists that setpriority() searches after the ready ones.
abbrev pub elsewhere : List Slot
elsewhere = Slot.running ∷ Slot.sleep ∷ []

pub elsewhere-state :
    (q : Proc) (k : Slot)
    → OneOf k elsewhere
    → home q ≡ k
    → ((code (q.state) == code runnable) ≡ false) × (is_active (q.state) ≡ true)
elsewhere-state q k o e = by_state q.state o e
  where
    by_state :
        (st : ProcState)
        → OneOf k elsewhere
        → slot_of st q.priority ≡ k
        → ((code st == code runnable) ≡ false) × (is_active st ≡ true)
    by_state unused (inl a) e' = cc
    by_state unused (inr (inl a)) e' = cc
    by_state embryo (inl a) e' = cc
    by_state embryo (inr (inl a)) e' = cc
    by_state runnable (inl a) e' = cc
    by_state runnable (inr (inl a)) e' = cc
    by_state zombie (inl a) e' = cc
    by_state zombie (inr (inl a)) e' = cc
    by_state sleeping o' e' = (refl, refl)
    by_state running o' e' = (refl, refl)
    by_state st (inr (inr a)) e' = elim a [ ]

pub ready_index : (k : Slot) → OneOf k ready_slots → (i : ℕ) × (k ≡ ready i)
ready_index k (inl e) = (0, e)
ready_index k (inr (inl e)) = (1, e)
ready_index k (inr (inr (inl e))) = (2, e)
ready_index k (inr (inr (inr o))) = elim o [ ]

pub ready-OneOf : (i : ℕ) → i ≤ max_priority → OneOf (ready i) ready_slots
ready-OneOf zero h = inl refl
ready-OneOf (suc zero) h = inr (inl refl)
ready-OneOf (suc (suc zero)) h = inr (inr (inl refl))
ready-OneOf (suc (suc (suc i))) h = absurd (omega arith)

twice-home :
    (t : Table) (p n : ℕ)
    → (code ((t.procs p).state) == code runnable) ≡ false
    → home (twice t p n p) ≡ home (t.procs p)
twice-home t p n stays =
    ap home (twice_self t p n)
    ∙ ap (λ s. slot_of s ((reset n (t.procs p)).priority)) (reset-state n (t.procs p))
    ∙ any_priority ((t.procs p).state) stays
  where
    any_priority :
        (st : ProcState)
        → (code st == code runnable) ≡ false
        → slot_of st ((reset n (t.procs p)).priority) ≡ slot_of st ((t.procs p).priority)
    any_priority unused h = refl
    any_priority embryo h = refl
    any_priority sleeping h = refl
    any_priority runnable h = cc
    any_priority running h = refl
    any_priority zombie h = refl

pub twice-Inv :
    (t : Table) (p n : ℕ) (queue : Slot → List Ptr)
    → IsOrdered queue t
    → n ≤ max_priority
    → (code ((t.procs p).state) == code runnable) ≡ false
    → Inv queue 0 (twice t p n) t.lists
twice-Inv t p n queue inv small stays =
    Inv-edit queue 0 t.procs (twice t p n) t.lists inv
      (λ q. elim (Bool-cases (q == p)) [
        | inl is ↦
            subst (λ r. home (twice t p n r) ≡ home (t.procs r)) (sym (==→eq q p is))
              (twice-home t p n stays)
        | inr is ↦ ap home (twice-same t p n q (==→ne q p is))
      ])
      (λ q. elim (Bool-cases (q == p)) [
        | inl is ↦ rw (==→eq q p is, twice_self t p n, reset-priority) small
        | inr is ↦ rw (twice-same t p n q (==→ne q p is)) (inv.bounded q)
      ])
