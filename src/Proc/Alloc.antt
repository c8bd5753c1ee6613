-- ===== src/Proc/Alloc.antt =====
-- allocproc and fork of proc.c. What kalloc() and copyuvm() give back is an argument: the address
-- of the page, or 0.
pub mod Hatch
pub mod Allocproc
pub mod Result
pub mod Files
pub mod Child
pub mod Birth
pub mod Offspring
pub mod Fork
use fp_sisop20_b.Prelude.{
  ℕ, zero, suc, update, ◌+◌, ◌-◌, ◌%◌, ◌^◌, Bool, true, false, not, List, [], ◌∷◌, ◌==◌,
  if◌then◌else◌,
}
use fp_sisop20_b.Run.{Run, ok, panics, Cmd, pure, panic, ◌>>=◌, ◌>>◌, get, modify}
use fp_sisop20_b.CString.{safestrcpy}
use fp_sisop20_b.Spinlock.{acquire, release}
use fp_sisop20_b.StateList.{
  Ptr, Slot, ready, load_head, add_to_state_list_head, add_to_state_list_end,
  remove_from_state_list,
}
use fp_sisop20_b.Proc.{
  ProcState, Context, forkret, trapret, Trapframe, Proc, Event, filedup, idup, kfree, Table, State,
  lift_run, on_lists, on_table, on_sync, load, edit, set_state, emit, or_print, or_panic,
  assert_state, budget_full,
}

-- KSTACKSIZE of param.h, and the sizes of the two structs on the kernel stack.
abbrev pub kstacksize : ℕ
kstacksize = 4096

abbrev pub trapframe_size : ℕ
trapframe_size = 76

abbrev pub context_size : ℕ
context_size = 20

-- The `int` -1.
abbrev pub minus_one : ℕ
minus_one = 2 ^ 32 - 1

-- `p->kstack = page`, `p->pid = pid`
unfoldable pub set_kstack : ℕ → Proc → Proc
set_kstack page q = record q { kstack = page }

unfoldable pub set_pid : ℕ → Proc → Proc
set_pid pid q = record q { pid = pid }

-- `np->pgdir = pgdir`
unfoldable pub set_pgdir : ℕ → Proc → Proc
set_pgdir pgdir q = record q { pgdir = pgdir }

-- The rest of allocproc(), from `sp = p->kstack + KSTACKSIZE`.
unfoldable pub fresh : ℕ → Proc → Proc
fresh ticks q =
    let tf_at = q.kstack + kstacksize - trapframe_size in
    record q {
      tf_at = tf_at;
      return_to = trapret;
      context_at = tf_at - 4 - context_size;
      context = record { edi = 0; esi = 0; ebx = 0; ebp = 0; eip = forkret };
      start_ticks = ticks;
      cpu_ticks_total = 0;
      cpu_ticks_in = 0;
      budget = budget_full;
      priority = 0;
    }

-- From the free list to the embryos.
unfoldable pub hatch : Ptr → Cmd Table (Unit {0})
hatch p = do
  assert_state p ProcState.unused
  removed ← on_lists (remove_from_state_list Slot.free p)
  or_print "Failed to remove proc from UNUSED list (allocproc).\n" removed
  edit p (set_state ProcState.embryo)
  added ← on_lists (add_to_state_list_head Slot.embryo p)
  or_print "Failed to add proc to EMBRYO list (allocproc).\n" added

-- And back, where there is no page for the kernel stack.
unfoldable pub unhatch : Ptr → Cmd Table (Unit {0})
unhatch p = do
  assert_state p ProcState.embryo
  on_lists (remove_from_state_list Slot.embryo p)
  edit p (set_state ProcState.unused)
  added ← on_lists (add_to_state_list_head Slot.free p)
  or_print "Not enough room for process stack; Failed to add proc to UNUSED list (allocproc).\n"
      added

unfoldable pub allocproc : (page : ℕ) → Cmd State Ptr
allocproc page = do
  on_sync acquire
  p ← on_table (on_lists (load_head Slot.free))
  if p == 0 then (do on_sync release; pure 0) else (do
    on_table (hatch p)
    pid ← get (λ s. s.nextpid)
    on_table (edit p (set_pid pid))
    modify (λ s. record s { nextpid = (pid + 1) % 2 ^ 32 })
    on_sync release
    on_table (edit p (set_kstack page))
    if page == 0
        then (do on_table (unhatch p); pure 0)
        else (do ticks ← get (λ s. s.ticks); on_table (edit p (fresh ticks)); pure p))

-- What fork() undoes where copyuvm() gave no page directory.
unfoldable pub abort_fork : Ptr → Cmd Table (Unit {0})
abort_fork np = do
  q ← load np
  emit (kfree (q.kstack))
  edit np (set_kstack 0)
  assert_state np ProcState.embryo
  removed ← on_lists (remove_from_state_list Slot.embryo np)
  or_panic "Failed to remove proc from EMBRYO list (fork).\n" removed
  edit np (set_state ProcState.unused)
  added ← on_lists (add_to_state_list_head Slot.free np)
  or_panic "Failed to add proc to UNUSED list (fork).\n" added

-- NOFILE of param.h, and the size of `name`.
abbrev pub nofile : ℕ
nofile = 16

abbrev pub name_size : ℕ
name_size = 16

-- What fork() copies from the parent: page directory, size and trap frame with eax 0; then the
-- directory, the name and the owner.
unfoldable pub inherit : (pgdir : ℕ) (parent : Ptr) → Proc → Proc → Proc
inherit pgdir parent q np = record np {
  pgdir = pgdir;
  sz = q.sz;
  parent = parent;
  tf = record (q.tf) { eax = 0 };
}

unfoldable pub inherit_rest : Proc → Proc → Proc
inherit_rest q np = record np {
  cwd = q.cwd;
  name = safestrcpy np.name q.name name_size;
  uid = q.uid;
  gid = q.gid;
}

-- `np->ofile[fd] = f`
unfoldable pub set_file : (fd f : ℕ) → Proc → Proc
set_file fd f np = record np { ofile = update np.ofile fd f }

-- The loop over the files, with `n` of them to go: a new reference to each open one.
unfoldable pub dup_loop : (n fd : ℕ) (parent np : Ptr) → Cmd Table (Unit {0})
dup_loop zero fd parent np = pure tt
dup_loop (suc n) fd parent np = do
  q ← load parent
  if q.ofile fd == 0
      then pure tt
      else (do emit (filedup (q.ofile fd)); edit np (set_file fd (q.ofile fd)))
  dup_loop n (fd + 1) parent np

-- The last step of fork(), under the lock.
unfoldable pub ready_child : Ptr → Cmd Table (Unit {0})
ready_child np = do
  assert_state np ProcState.embryo
  removed ← on_lists (remove_from_state_list Slot.embryo np)
  or_print "Failed to remove EMBRYO proc from list (fork).\n" removed
  edit np (set_state ProcState.runnable)
  q ← load np
  added ← on_lists (add_to_state_list_end (ready (q.priority)) np)
  or_print "Failed to add RUNNABLE proc to list (fork).\n" added

unfoldable pub fork : (page pgdir : ℕ) → Cmd State ℕ
fork page pgdir = do
  np ← allocproc page
  if np == 0
      then pure minus_one
      else if pgdir == 0
      then (do on_table (edit np (set_pgdir pgdir)); on_table (abort_fork np); pure minus_one)
      else (do
        current ← get (λ s. s.current)
        parent ← on_table (load current)
        on_table (edit np (inherit pgdir current parent))
        on_table (dup_loop nofile 0 current np)
        parent' ← on_table (load current)
        on_table (emit (idup (parent'.cwd)))
        on_table (edit np (inherit_rest parent'))
        child ← on_table (load np)
        let pid = child.pid
        on_sync acquire
        on_table (ready_child np)
        on_sync release
        pure pid)
