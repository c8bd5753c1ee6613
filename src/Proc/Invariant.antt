-- ===== src/Proc/Invariant.antt =====
-- The invariant of the process table: each process is on exactly the list of its state.
use fp_sisop20_b.Prelude.{ℕ, ◌≤◌, ◌<◌, ◌≡◌, ◌≢◌, true, List}
use fp_sisop20_b.StateList.{Ptr, Slot, Lists, nproc, max_priority}
use fp_sisop20_b.StateList.Chain.{has, Distinct, Chain}
use fp_sisop20_b.Proc.{Proc, ProcState, Table}

abbrev pub InTable : Ptr → Type 0
InTable p = (0 < p) × (p ≤ nproc)

abbrev pub slot_of : ProcState → ℕ → Slot
slot_of ProcState.unused i = Slot.free
slot_of ProcState.embryo i = Slot.embryo
slot_of ProcState.sleeping i = Slot.sleep
slot_of ProcState.runnable i = Slot.ready i
slot_of ProcState.running i = Slot.running
slot_of ProcState.zombie i = Slot.zombie

-- The list on which a process belongs.
abbrev pub home : Proc → Slot
home p = slot_of p.state p.priority

-- `queue k` is what list `k` holds. Process `out` is on no list, and every other process of the
-- table on its home; with `out` null, all of them are.
pub record Inv (queue : Slot → List Ptr) (out : Ptr) (procs : Ptr → Proc) (lists : Lists)
    : Type 0 where
  pub chain : (k : Slot) → Chain lists.next (lists.head k) (queue k)
  pub distinct : (k : Slot) → Distinct (queue k)
  pub within : (k : Slot) (p : Ptr) → has p (queue k) ≡ true → InTable p
  pub absent : (k : Slot) (p : Ptr) → has p (queue k) ≡ true → p ≢ out
  pub at_home : (k : Slot) (p : Ptr) → has p (queue k) ≡ true → home (procs p) ≡ k
  pub complete : (p : Ptr) → InTable p → p ≢ out → has p (queue (home (procs p))) ≡ true
  pub bounded : (p : Ptr) → (procs p).priority ≤ max_priority

-- The whole table is in order.
abbrev pub IsOrdered : (Slot → List Ptr) → Table → Type 0
IsOrdered queue t = Inv queue 0 t.procs t.lists
