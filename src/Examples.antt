-- ===== src/Examples.antt =====
-- A table in order, for the theorems at concrete inputs: process 1 runs, 2 sleeps on channel 7, 3 is
-- a zombie and child of 1, 4 is runnable at priority 1, and 5 to 64 are unused.
use fp_sisop20_b.Prelude.{
  ℕ, zero, suc, ◌+◌, ◌≤◌, ◌<◌, ◌≡◌, refl, true, false, ◌&&◌, List, [], ◌∷◌, arith, ltb, ◌==◌,
  if◌then◌else◌,
}
use fp_sisop20_b.Spinlock.{Sync}
use fp_sisop20_b.StateList.{Ptr, Slot, ready, Lists}
use fp_sisop20_b.StateList.Chain.{has, Distinct, Chain}
use fp_sisop20_b.StateList.Range.{range, has-range, Distinct-range}
use fp_sisop20_b.Proc.{
  Proc, unused, sleeping, runnable, running, zombie, Table, State, forkret, budget_full,
}
use fp_sisop20_b.Proc.Invariant.{InTable, home, IsOrdered}

abbrev pub blank : Proc
blank = record {
  sz = 0;
  pgdir = 0;
  kstack = 0;
  state = unused;
  pid = 0;
  parent = 0;
  tf_at = 0;
  tf = record {
    eax = 0;
    cs = 0;
    ds = 0;
    es = 0;
    ss = 0;
    eflags = 0;
    esp = 0;
    eip = 0;
    others = [];
  };
  return_to = forkret;
  context_at = 0;
  context = record { edi = 0; esi = 0; ebx = 0; ebp = 0; eip = forkret };
  chan = 0;
  killed = 0;
  ofile = λ i. 0;
  cwd = 0;
  name = λ i. 0;
  start_ticks = 0;
  uid = 0;
  gid = 0;
  cpu_ticks_total = 0;
  cpu_ticks_in = 0;
  priority = 0;
  budget = 0;
}

abbrev pub procs : Ptr → Proc
procs p =
    if p == 1
    then record blank { state = running; pid = 1; parent = 1; budget = budget_full }
    else if p == 2
    then record blank { state = sleeping; pid = 2; parent = 1; chan = 7; budget = 5 }
    else if p == 3
    then record blank { state = zombie; pid = 3; parent = 1; kstack = 4096 }
    else if p == 4
    then record blank { state = runnable; pid = 4; parent = 1; priority = 1 }
    else blank

abbrev pub queue : Slot → List Ptr
queue (ready zero) = []
queue (ready (suc zero)) = 4 ∷ []
queue (ready (suc (suc i))) = []
queue Slot.free = range 5 60
queue Slot.sleep = 2 ∷ []
queue Slot.zombie = 3 ∷ []
queue Slot.running = 1 ∷ []
queue Slot.embryo = []

abbrev head : Slot → Ptr
head (ready zero) = 0
head (ready (suc zero)) = 4
head (ready (suc (suc i))) = 0
head Slot.free = 5
head Slot.sleep = 2
head Slot.zombie = 3
head Slot.running = 1
head Slot.embryo = 0

abbrev pub lists : Lists
lists = record { next = λ p. if ltb 4 p && ltb p 64 then suc p else 0; head = head }

abbrev pub table : Table
table = record { procs = procs; lists = lists; trace = [] }

Chain-range : (a n : ℕ) → 4 < a → a + n ≡ 64 → Chain lists.next a (range a (suc n))
unfolding range
Chain-range a zero h e = (refl, (λ z. omega arith), ground arith)
Chain-range a (suc n) h e =
    let step : lists.next a ≡ suc a = ground arith in
    (refl, (λ z. omega arith), rw step (Chain-range (suc a) n (omega arith) (omega arith)))

chain : (k : Slot) → Chain lists.next (lists.head k) (queue k)
chain (ready zero) = refl
chain (ready (suc zero)) = (refl, (λ z. omega arith), refl)
chain (ready (suc (suc i))) = refl
chain Slot.free = Chain-range 5 59 (omega arith) refl
chain Slot.sleep = (refl, (λ z. omega arith), refl)
chain Slot.zombie = (refl, (λ z. omega arith), refl)
chain Slot.running = (refl, (λ z. omega arith), refl)
chain Slot.embryo = refl

distinct : (k : Slot) → Distinct (queue k)
distinct (ready zero) = tt
distinct (ready (suc zero)) = (refl, tt)
distinct (ready (suc (suc i))) = tt
distinct Slot.free = Distinct-range 5 60
distinct Slot.sleep = (refl, tt)
distinct Slot.zombie = (refl, tt)
distinct Slot.running = (refl, tt)
distinct Slot.embryo = tt

-- Where each entry of the lists stands.
placed : (k : Slot) (p : Ptr) → has p (queue k) ≡ true → (0 < p) × (p ≤ 64) × (home (procs p) ≡ k)
placed (ready zero) p h = cc
placed (ready (suc zero)) p h = ground arith
placed (ready (suc (suc i))) p h = cc
placed Slot.free p h = ground (arith, has-range p 5 60)
placed Slot.sleep p h = ground arith
placed Slot.zombie p h = ground arith
placed Slot.running p h = ground arith
placed Slot.embryo p h = cc

complete : (p : Ptr) → InTable p → has p (queue (home (procs p))) ≡ true
complete p h = ground (arith, has-range p 5 60)

bounded : (p : Ptr) → (procs p).priority ≤ 2
bounded p = ground arith

pub table-IsOrdered : IsOrdered queue table
table-IsOrdered = record {
  chain = chain;
  distinct = distinct;
  within = λ k p h. let (a, b, c) = placed k p h in (a, b);
  absent = λ k p h e. let (a, b, c) = placed k p h in omega arith;
  at_home = λ k p h. (placed k p h).2;
  complete = λ p h ne. complete p h;
  bounded = bounded;
}

abbrev pub free_sync : Sync
free_sync = record {
  cpu = record { id = 0; ncli = 0; intena = false; interrupts = true };
  lock = record { locked = false; cpu = 0 };
}

abbrev pub state : State
state = record {
  table = table;
  promote_at = 270;
  sync = free_sync;
  current = 1;
  initproc = 1;
  nextpid = 5;
  ticks = 7;
}
