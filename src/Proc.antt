-- ===== src/Proc.antt =====
-- proc.h and the state of proc.c: processes, the table that ptable.lock guards, and the kernel
-- state around it. A process is named by its address, 1 to NPROC. C's `int` and `uint` are the
-- 32-bit patterns from 0 to 2 ^ 32 - 1.
pub mod Invariant
pub mod Moves
pub mod Steps
pub mod Homes
pub mod Requeue
pub mod Edits
pub mod Find
pub mod Sched
pub mod Sleep
pub mod Alloc
pub mod Wait
pub mod Exit
pub mod Init
use fp_sisop20_b.Prelude.{
  ℕ, zero, suc, String, ◌+◌, ◌-◌, ◌%◌, ◌^◌, ◌≤◌, ◌<◌, Bool, true, false, not, ◌||◌, List, [], ◌∷◌,
  ◌++◌, ltb, leb, ◌==◌, if◌then◌else◌, update,
}
use fp_sisop20_b.Run.{
  Run, ok, panics, spins, faults, exhausted, Cmd, pure, panic, ◌>>=◌, ◌>>◌, get, modify,
}
pub use fp_sisop20_b.Run.{lift_run}
use fp_sisop20_b.Spinlock.{Sync}
use fp_sisop20_b.CString.{Bytes}
use fp_sisop20_b.StateList.{
  Ptr, Slot, ready, free, sleep, Lists, Status, success, failure, nproc, max_priority, load_head,
}

-- BUDGET and TIME_TO_PROMOTE of param.h.
abbrev pub budget_full : ℕ
budget_full = 120

abbrev pub time_to_promote : ℕ
time_to_promote = 270

pub data ProcState : Type 0 where
  unused embryo sleeping runnable running zombie : ProcState

-- The numbers of `enum procstate`.
abbrev pub code : ProcState → ℕ
code unused = 0
code embryo = 1
code sleeping = 2
code runnable = 3
code running = 4
code zombie = 5

-- The saved eip of a context: a function of the kernel.
pub data Entry : Type 0 where
  forkret trapret : Entry
  address : ℕ → Entry

pub record Context : Type 0 where
  pub edi : ℕ
  pub esi : ℕ
  pub ebx : ℕ
  pub ebp : ℕ
  pub eip : Entry

-- `struct trapframe`: the fields that proc.c names, and the others in order.
pub record Trapframe : Type 0 where
  pub eax : ℕ
  pub cs : ℕ
  pub ds : ℕ
  pub es : ℕ
  pub ss : ℕ
  pub eflags : ℕ
  pub esp : ℕ
  pub eip : ℕ
  pub others : List ℕ

-- `struct proc` without `next`, which stands in `Lists`. `tf_at` and `context_at` are the pointers
-- `tf` and `context`, `tf` and `context` what they point to, and `return_to` the word between the
-- two on the kernel stack; `ofile` gives the file at each descriptor.
pub record Proc : Type 0 where
  pub sz : ℕ
  pub pgdir : ℕ
  pub kstack : ℕ
  pub state : ProcState
  pub pid : ℕ
  pub parent : Ptr
  pub tf_at : ℕ
  pub tf : Trapframe
  pub return_to : Entry
  pub context_at : ℕ
  pub context : Context
  pub chan : ℕ
  pub killed : ℕ
  pub ofile : ℕ → ℕ
  pub cwd : ℕ
  pub name : Bytes
  pub start_ticks : ℕ
  pub uid : ℕ
  pub gid : ℕ
  pub cpu_ticks_total : ℕ
  pub cpu_ticks_in : ℕ
  pub priority : ℕ
  pub budget : ℕ

-- Calls of other parts of the kernel, latest first.
pub data Event : Type 0 where
  cprintf : String → Event
  filedup fileclose idup iput kfree freevm switchuvm swtch inituvm : ℕ → Event
  begin_op end_op switchkvm hlt : Event

pub record Table : Type 0 where
  pub procs : Ptr → Proc
  pub lists : Lists
  pub trace : List Event

-- `sync` is ptable.lock with the CPU, `current` the variable `proc`.
pub record State : Type 0 where
  pub table : Table
  pub open table use *
  pub promote_at : ℕ
  pub sync : Sync
  pub current : Ptr
  pub initproc : Ptr
  pub nextpid : ℕ
  pub ticks : ℕ

abbrev pub on_lists : {A : Type 0} → Cmd Lists A → Cmd Table A
on_lists m t = lift_run (λ l. record t { lists = l }) (m t.lists)

abbrev pub on_table : {A : Type 0} → Cmd Table A → Cmd State A
on_table m s = lift_run (λ t. record s { table = t }) (m s.table)

abbrev pub on_sync : {A : Type 0} → Cmd Sync A → Cmd State A
on_sync m s = lift_run (λ y. record s { sync = y }) (m s.sync)

abbrev pub load : Ptr → Cmd Table Proc
load p = get (λ t. t.procs p)

-- The table of processes with one entry replaced.
unfoldable pub put : (Ptr → Proc) → Ptr → Proc → Ptr → Proc
put procs p q = update procs p q

abbrev pub edit : Ptr → (Proc → Proc) → Cmd Table (Unit {0})
edit p f = modify (λ t. record t { procs = put t.procs p (f (t.procs p)) })

-- `p->state = state`
unfoldable pub set_state : ProcState → Proc → Proc
set_state state q = record q { state = state }

abbrev pub emit : Event → Cmd Table (Unit {0})
emit e = modify (λ t. record t { trace = e ∷ t.trace })

-- `if (... < 0) { cprintf(message); }`
abbrev pub or_print : String → Status → Cmd Table (Unit {0})
or_print message success = pure tt
or_print message failure = emit (cprintf message)

-- `if (... < 0) { panic(message); }`
abbrev pub or_panic : String → Status → Cmd Table (Unit {0})
or_panic message success = pure tt
or_panic message failure = panic message

unfoldable pub assert_state : Ptr → ProcState → Cmd Table (Unit {0})
assert_state p state = if p == 0 then panic "assertState: invalid proc argument.\n" else do
  q ← load p
  if code (q.state) == code state then pure tt else panic "assertState: process in wrong state.\n"

-- a - b for `uint`.
abbrev pub sub32 : ℕ → ℕ → ℕ
sub32 a b = (a + 2 ^ 32 - b) % 2 ^ 32

-- `b <= 0` for an `int` with this bit pattern.
abbrev pub nonpositive : ℕ → Bool
nonpositive b = b == 0 || leb (2 ^ 31) b

-- The budget update of `yield` and `sleep`.
unfoldable pub charge : ℕ → Proc → Proc
charge ticks p =
    let left = sub32 p.budget (sub32 ticks p.cpu_ticks_in) in
    if nonpositive left
    then record p {
      priority = if ltb p.priority max_priority then p.priority + 1 else p.priority;
      budget = budget_full;
    }
    else record p { budget = left }

-- The walk `while (p) { if (test) ...return; p = p->next; }` up to the process found, or null.
unfoldable pub find_loop : ℕ → (Proc → Bool) → Ptr → Cmd Table Ptr
find_loop zero test p = λ _. exhausted
find_loop (suc n) test p = if p == 0 then pure 0 else do
  q ← load p
  if test q then pure p else (do after ← get (λ t. t.lists.next p); find_loop n test after)

-- Such walks over several lists, one after the other.
unfoldable pub find_in : List Slot → (Proc → Bool) → Cmd Table Ptr
find_in [] test = pure 0
find_in (k ∷ ks) test = do
  h ← on_lists (load_head k)
  p ← find_loop (nproc + 1) test h
  if p == 0 then find_in ks test else pure p

-- `for (int i = 0; i <= MAX; i++)` over the ready lists.
abbrev pub ready_slots : List Slot
ready_slots = ready 0 ∷ ready 1 ∷ ready 2 ∷ []
