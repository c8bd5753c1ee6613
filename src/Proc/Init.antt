-- ===== src/Proc/Init.antt =====
-- userinit of proc.c: the table of main()'s zeroed memory, and the first process. The pages that
-- kalloc() and setupkvm() give, and the inode of namei("/"), are arguments; a null page is 0.
pub mod Fill
pub mod Launch
pub mod Boot
pub mod Whole
use fp_sisop20_b.Prelude.{ℕ, zero, suc, ◌+◌, ◌*◌, Bool, true, List, [], ◌∷◌, ◌==◌, if◌then◌else◌}
use fp_sisop20_b.Run.{Run, ok, faults, Cmd, pure, panic, ◌>>=◌, ◌>>◌, modify}
use fp_sisop20_b.CString.{Bytes, safestrcpy}
use fp_sisop20_b.StateList.{
  Ptr, Slot, ready, nproc, store_head, store_next, add_to_state_list_end, remove_from_state_list,
}
use fp_sisop20_b.Kalloc.{pgsize}
use fp_sisop20_b.Proc.{
  ProcState, Trapframe, Proc, inituvm, Table, State, time_to_promote, lift_run, on_lists, on_table,
  edit, set_state, emit, or_print, or_panic, assert_state,
}
use fp_sisop20_b.Proc.Alloc.{allocproc, set_pgdir, name_size}

-- FL_IF and the two segment selectors of user mode, from mmu.h.
abbrev pub fl_if : ℕ
fl_if = 512

abbrev pub user_code : ℕ
user_code = 4 * 8 + 3

abbrev pub user_data : ℕ
user_data = 5 * 8 + 3

-- UID and GID of param.h.
abbrev pub first_uid : ℕ
first_uid = 0

abbrev pub first_gid : ℕ
first_gid = 0

-- The loop over ptable.proc, with `n` processes to go.
unfoldable pub fill_loop : (n : ℕ) → Ptr → Cmd Table (Unit {0})
fill_loop zero p = pure tt
fill_loop (suc n) p = do
  assert_state p ProcState.unused
  added ← on_lists (add_to_state_list_end Slot.free p)
  or_panic "Failed to add proc to UNUSED list.\n" added
  fill_loop n (p + 1)

-- memset() of the other fields of a trap frame.
abbrev pub zeroes : List ℕ → List ℕ
zeroes [] = []
zeroes (x ∷ xs) = 0 ∷ zeroes xs

unfoldable pub first_frame : Trapframe → Trapframe
first_frame tf = record {
  eax = 0;
  cs = user_code;
  ds = user_data;
  es = user_data;
  ss = user_data;
  eflags = fl_if;
  esp = pgsize;
  eip = 0;
  others = zeroes tf.others;
}

-- The bytes of a string, and its terminator.
abbrev pub c_string : List ℕ → Bytes
c_string [] i = 0
c_string (c ∷ cs) zero = c
c_string (c ∷ cs) (suc i) = c_string cs i

-- "initcode"
abbrev pub initcode : Bytes
initcode = c_string (105 ∷ 110 ∷ 105 ∷ 116 ∷ 99 ∷ 111 ∷ 100 ∷ 101 ∷ [])

-- What userinit() writes into the process from `p->sz` to `p->cwd`.
unfoldable pub first_image : (p : Ptr) (cwd : ℕ) → Proc → Proc
first_image p cwd q = record q {
  sz = pgsize;
  tf = first_frame q.tf;
  uid = first_uid;
  gid = first_gid;
  parent = p;
  name = safestrcpy q.name initcode name_size;
  cwd = cwd;
}

-- The heads that userinit() sets to null.
unfoldable pub clear_heads : List Slot → Cmd Table (Unit {0})
clear_heads [] = pure tt
clear_heads (k ∷ ks) = do on_lists (store_head k 0); clear_heads ks

-- From `assertState(p, EMBRYO)` to the end.
unfoldable pub launch : Ptr → Cmd Table (Unit {0})
launch p = do
  assert_state p ProcState.embryo
  removed ← on_lists (remove_from_state_list Slot.embryo p)
  or_print "Failed to remove EMBRYO proc from list (userinit).\n" removed
  edit p (set_state ProcState.runnable)
  on_lists (store_head (ready 0) p)
  on_lists (store_next p 0)
  clear_heads (ready 1 ∷ ready 2 ∷ Slot.sleep ∷ Slot.zombie ∷ Slot.running ∷ Slot.embryo ∷ [])

-- A null process is written to at address 0, which the kernel does not map.
unfoldable pub userinit : (page pgdir cwd : ℕ) → Cmd State (Unit {0})
userinit page pgdir cwd = do
  modify (λ s. record s { promote_at = time_to_promote })
  on_table (fill_loop nproc 1)
  p ← allocproc page
  modify (λ s. record s { initproc = p })
  if p == 0 then (λ s. faults) else (do
    on_table (edit p (set_pgdir pgdir))
    if pgdir == 0 then panic "userinit: out of memory?" else (do
      on_table (emit (inituvm pgdir))
      on_table (edit p (first_image p cwd))
      on_table (launch p)))
