-- ===== src/Proc/Sleep/Strike.antt =====
-- What kill() makes of a process, and of the lists.
use fp_sisop20_b.Prelude.{
  ℕ, zero, suc, ◌≤◌, ◌≡◌, ◌≢◌, refl, inl, inr, List, [], ◌∷◌, ◌++◌, arith, ◌==◌, if◌then◌else◌,
}
use fp_sisop20_b.StateList.{Ptr, Slot, ready, max_priority}
use fp_sisop20_b.Proc.{
  Proc, ProcState, unused, embryo, sleeping, runnable, running, zombie, Table, set_state,
  ready_slots, code,
}
use fp_sisop20_b.Proc.Invariant.{InTable, slot_of, home, IsOrdered}
use fp_sisop20_b.Proc.Requeue.{requeued}
use fp_sisop20_b.Proc.Find.{OneOf, AllInRange}

-- The lists that kill() searches after the sleeping processes.
abbrev pub others : List Slot
others = ready_slots ++ Slot.running ∷ Slot.free ∷ Slot.zombie ∷ Slot.embryo ∷ []

pub all_in_range : AllInRange others
all_in_range = (refl, (refl, (refl, (refl, (refl, (refl, (refl, tt)))))))

ready-OneOf : (i : ℕ) (ks : List Slot) → i ≤ max_priority → OneOf (ready i) (ready_slots ++ ks)
ready-OneOf zero ks h = inl refl
ready-OneOf (suc zero) ks h = inr (inl refl)
ready-OneOf (suc (suc zero)) ks h = inr (inr (inl refl))
ready-OneOf (suc (suc (suc i))) ks h = absurd (omega arith)

-- A process that does not sleep is on one of the other lists.
pub home-OneOf : (q : Proc) → q.priority ≤ max_priority → q.state ≢ sleeping → OneOf (home q) others
home-OneOf q h awake = by_state q.state awake
  where
    by_state : (st : ProcState) → st ≢ sleeping → OneOf (slot_of st q.priority) others
    by_state unused ne = inr (inr (inr (inr (inl refl))))
    by_state embryo ne = inr (inr (inr (inr (inr (inr (inl refl))))))
    by_state sleeping ne = absurd (ne refl)
    by_state runnable ne =
        ready-OneOf q.priority (Slot.running ∷ Slot.free ∷ Slot.zombie ∷ Slot.embryo ∷ []) h
    by_state running ne = inr (inr (inr (inl refl)))
    by_state zombie ne = inr (inr (inr (inr (inr (inl refl)))))

abbrev pub killed : Proc → Proc
killed q = record q { killed = 1 }

-- What kill() makes of the process that it finds.
abbrev pub struck : Proc → Proc
struck q = if code (q.state) == code sleeping then set_state runnable (killed q) else killed q

-- No process of the table has the pid.
abbrev pub Nobody : Table → ℕ → Type 0
Nobody t pid = (q : Ptr) → InTable q → (t.procs q).pid ≢ pid

-- The lists when kill() has found `p`: it moves if it slept.
abbrev pub struck_queue : (Slot → List Ptr) → Table → Ptr → Slot → List Ptr
struck_queue queue t p =
    if code ((t.procs p).state) == code sleeping
    then requeued queue p Slot.sleep (ready ((t.procs p).priority))
    else queue

-- `p` has the pid. It is marked, and made runnable if it slept; the others stay as they are.
pub record Struck (queue : Slot → List Ptr) (t : Table) (pid : ℕ) (p : Ptr) (t' : Table)
    : Type 0 where
  pub in_table : InTable p
  pub has_pid : (t.procs p).pid ≡ pid
  pub changed : t'.procs p ≡ struck (t.procs p)
  pub same : (q : Ptr) → q ≢ p → t'.procs q ≡ t.procs q
  pub ordered : IsOrdered (struck_queue queue t p) t'
  pub quiet : t'.trace ≡ t.trace
