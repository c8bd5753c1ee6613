-- ===== src/Proc/Alloc/Offspring.antt =====
-- What fork() makes: the child, and the table with it or without it.
use fp_sisop20_b.Prelude.{ℕ, ◌≤◌, ◌≡◌, ◌≢◌, refl, ◌⊎◌, List, [], ◌∷◌}
use fp_sisop20_b.Run.{ok}
use fp_sisop20_b.CString.{safestrcpy}
use fp_sisop20_b.Spinlock.Critical.{IsFree, dropped}
use fp_sisop20_b.StateList.{Ptr, Slot, max_priority}
use fp_sisop20_b.Proc.{
  Proc, unused, embryo, runnable, idup, kfree, Table, State, set_state, budget_full,
}
use fp_sisop20_b.Proc.Invariant.{home, IsOrdered}
use fp_sisop20_b.Proc.Edits.{edited, edited-IsOrdered}
use fp_sisop20_b.Proc.Alloc.{
  minus_one, nofile, name_size, fork, inherit, inherit_rest, fresh, set_pgdir, set_pid, set_kstack,
}
use fp_sisop20_b.Proc.Alloc.Allocproc.{numbered_embryo, IsNext}
use fp_sisop20_b.Proc.Alloc.Files.{dups, shared, with_files}
use fp_sisop20_b.Proc.Alloc.Birth.{born}

-- The child, as it stands on its ready list: `parent` is the process that forked, `old` what stood
-- at its place before.
pub record Child (page pgdir : ℕ) (s : State) (old q : Proc) : Type 0 where
  pub state : q.state ≡ runnable
  pub pid : q.pid ≡ s.nextpid
  pub parent : q.parent ≡ s.current
  pub priority : q.priority ≡ 0
  pub budget : q.budget ≡ budget_full
  pub kstack : q.kstack ≡ page
  pub pgdir_is : q.pgdir ≡ pgdir
  pub sz : q.sz ≡ (s.procs s.current).sz
  pub tf : q.tf ≡ record ((s.procs s.current).tf) { eax = 0 }
  pub ofile : q.ofile ≡ shared nofile 0 (s.procs s.current).ofile old.ofile
  pub cwd : q.cwd ≡ (s.procs s.current).cwd
  pub name : q.name ≡ safestrcpy old.name (s.procs s.current).name name_size
  pub uid : q.uid ≡ (s.procs s.current).uid
  pub gid : q.gid ≡ (s.procs s.current).gid
  pub killed : q.killed ≡ old.killed

abbrev pub child : (page pgdir : ℕ) → State → Proc → Proc
child page pgdir s old =
    let q =
      inherit pgdir s.current (s.procs s.current) (fresh s.ticks (numbered_embryo s page old)) in
    set_state runnable (
      inherit_rest (s.procs s.current)
        (with_files (shared nofile 0 (s.procs s.current).ofile q.ofile) q))

pub child-Child :
    (page pgdir : ℕ) (s : State) (old : Proc) → Child page pgdir s old (child page pgdir s old)
unfolding inherit inherit_rest fresh set_kstack set_pid set_state
child-Child page pgdir s old = record {
  state = refl;
  pid = refl;
  parent = refl;
  priority = refl;
  budget = refl;
  kstack = refl;
  pgdir_is = refl;
  sz = refl;
  tf = refl;
  ofile = refl;
  cwd = refl;
  name = refl;
  uid = refl;
  gid = refl;
  killed = refl;
}

-- What fork() leaves to its caller.
pub record Kept (s s' : State) : Type 0 where
  pub current : s'.current ≡ s.current
  pub self : s'.procs s.current ≡ s.procs s.current
  pub balanced : s'.sync.cpu.ncli ≡ s.sync.cpu.ncli

-- copyuvm() found no memory: process `p` is back on the free list without its stack.
pub record Undone (queue : Slot → List Ptr) (page pgdir : ℕ) (s : State) (p : Ptr) (s' : State)
    : Type 0 where
  pub no_memory : pgdir ≡ 0
  pub run : fork page pgdir s ≡ ok minus_one s'
  pub ordered : IsOrdered queue s'.table
  pub others : (r : Ptr) → r ≢ p → s'.procs r ≡ s.procs r
  pub kept : Kept s s'
  pub free_again : (s'.procs p).state ≡ unused
  pub trace : s'.trace ≡ kfree page ∷ s.trace
  pub unlocked : IsFree s'.sync

-- Process `p` is the child.
pub record Born (queue : Slot → List Ptr) (page pgdir : ℕ) (s : State) (p : Ptr) (rest : List Ptr)
    (s' : State) : Type 0 where
  pub a_page : page ≢ 0
  pub a_directory : pgdir ≢ 0
  pub is_next : IsNext queue s p rest
  pub run : fork page pgdir s ≡ ok s.nextpid s'
  pub ordered : IsOrdered (born queue p rest) s'.table
  pub kept : Kept s s'
  pub new : Child page pgdir s (s.procs p) (s'.procs p)
  pub others : (r : Ptr) → r ≢ p → s'.procs r ≡ s.procs r
  pub trace :
      s'.trace ≡ idup ((s.procs s.current).cwd) ∷ dups nofile 0 (s.procs s.current).ofile s.trace
  pub unlocked : IsFree s'.sync

abbrev pub Forked : (Slot → List Ptr) → (page pgdir : ℕ) → State → Type 0
Forked queue page pgdir s =
    ((queue Slot.free ≡ [])
      × (fork page pgdir s ≡ ok minus_one (record s { sync = dropped s.sync })))
    ⊎ ((s' : State) × (page ≡ 0)
        × (fork page pgdir s ≡ ok minus_one s')
        × IsOrdered queue s'.table
        × IsFree s'.sync
        × Kept s s')
    ⊎ ((p : Ptr) × (s' : State) × Undone queue page pgdir s p s')
    ⊎ ((p : Ptr) × (rest : List Ptr) × (s' : State) × Born queue page pgdir s p rest s')

abbrev pub embryo_child : (page pgdir : ℕ) → State → Proc → Proc
embryo_child page pgdir s old =
    let q =
      inherit pgdir s.current (s.procs s.current) (fresh s.ticks (numbered_embryo s page old)) in
    inherit_rest (s.procs s.current)
      (with_files (shared nofile 0 (s.procs s.current).ofile q.ofile) q)

pub embryo_child_lem :
    (page pgdir : ℕ) (s : State) (old : Proc)
    → ((embryo_child page pgdir s old).state ≡ embryo)
      × ((embryo_child page pgdir s old).priority ≡ 0)
      × ((embryo_child page pgdir s old).pid ≡ s.nextpid)
unfolding inherit inherit_rest fresh set_kstack set_pid set_state
embryo_child_lem page pgdir s old = (refl, refl, refl)

pub allocated_lem :
    (page : ℕ) (s : State) (old : Proc)
    → ((set_pgdir 0 (fresh s.ticks (numbered_embryo s page old))).state ≡ embryo)
      × ((set_pgdir 0 (fresh s.ticks (numbered_embryo s page old))).kstack ≡ page)
unfolding fresh set_kstack set_pid set_state set_pgdir
allocated_lem page s old = (refl, refl)

pub set_pgdir-IsOrdered :
    (queue : Slot → List Ptr) (t : Table) (p : Ptr)
    → IsOrdered queue t
    → IsOrdered queue (edited t p (set_pgdir 0))
unfolding set_pgdir
set_pgdir-IsOrdered queue t p inv =
    edited-IsOrdered queue t p (set_pgdir 0) refl (inv.bounded p) inv

pub inherit-home : (pgdir : ℕ) (c : Ptr) (q np : Proc) → home (inherit pgdir c q np) ≡ home np
unfolding inherit
inherit-home pgdir c q np = refl

pub inherit-priority :
    (pgdir : ℕ) (c : Ptr) (q np : Proc)
    → np.priority ≤ max_priority
    → (inherit pgdir c q np).priority ≤ max_priority
unfolding inherit
inherit-priority pgdir c q np h = h

pub inherit_rest-home : (q np : Proc) → home (inherit_rest q np) ≡ home np
unfolding inherit_rest
inherit_rest-home q np = refl

pub inherit_rest-priority :
    (q np : Proc) → np.priority ≤ max_priority → (inherit_rest q np).priority ≤ max_priority
unfolding inherit_rest
inherit_rest-priority q np h = h
