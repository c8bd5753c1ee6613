-- ===== src/Sysfile.antt =====
-- sysfile.c: the system calls on open files by descriptor. A result -1 is `none`.
pub mod Count
pub mod Find
pub mod Balance
use fp_sisop20_b.Prelude.{
  ℕ, zero, suc, ◌+◌, ◌^◌, ◌||◌, Option, none, some, leb, ◌==◌, if◌then◌else◌, update,
}
use fp_sisop20_b.Run.{
  Run, ok, panics, spins, faults, exhausted, lift_run, Cmd, pure, ◌>>=◌, ◌>>◌, modify,
}
use fp_sisop20_b.Proc.Alloc.{nofile}
use fp_sisop20_b.File.{Devices, FileState, filedup, fileclose, fileread, filewrite}
use fp_sisop20_b.Syscall.{Caller, argint, argptr}

-- `proc->ofile` and the rest of `proc` that the calls read, and the file table.
pub record SysState (D : Type 0) : Type 0 where
  pub caller : Caller
  pub ofile : ℕ → ℕ
  pub table : FileState D

-- A descriptor and its file.
pub record Descriptor : Type 0 where
  pub fd : ℕ
  pub file : ℕ

-- `fd < 0 || fd >= NOFILE || (f=proc->ofile[fd]) == 0`
abbrev pub look_up : (ℕ → ℕ) → ℕ → Option Descriptor
look_up ofile fd =
    if leb (2 ^ 31) fd || leb nofile fd || ofile fd == 0
    then none
    else some (record { fd = fd; file = ofile fd })

module _ {D : Type 0} where
  abbrev pub on_files : {A : Type 0} → Cmd (FileState D) A → Cmd (SysState D) A
  on_files m s = lift_run (λ t. record s { table = t }) (m s.table)

  -- argfd, after its argint.
  abbrev pub found : Option ℕ → Cmd (SysState D) (Option Descriptor)
  found none s = ok none s
  found (some fd) s = ok (look_up s.ofile fd) s

  unfoldable pub argfd : ℕ → Cmd (SysState D) (Option Descriptor)
  argfd n s = found (argint n s.caller) s

  -- The loop of fdalloc, with `n` descriptors left from `fd` on.
  unfoldable pub fd_loop : (n fd f : ℕ) → Cmd (SysState D) (Option ℕ)
  fd_loop zero fd f s = ok none s
  fd_loop (suc n) fd f s =
      if s.ofile fd == 0
      then ok (some fd) (record s { ofile = update s.ofile fd f })
      else fd_loop n (fd + 1) f s

  unfoldable pub fdalloc : (f : ℕ) → Cmd (SysState D) (Option ℕ)
  fdalloc f = fd_loop nofile 0 f

  -- The rest of a call after an argument fetch: -1 where it failed.
  abbrev pub given :
      {A B : Type 0} → Option A → (A → Cmd (SysState D) (Option B)) → Cmd (SysState D) (Option B)
  given none k = pure none
  given (some a) k = k a

  unfoldable pub sys_dup : Cmd (SysState D) (Option ℕ)
  sys_dup = do
    d ← argfd 0
    given d
        (λ a. do fd ← fdalloc a.file; given fd (λ b. do on_files (filedup a.file); pure (some b)))

  unfoldable pub sys_close : Cmd (SysState D) (Option ℕ)
  sys_close = do
    d ← argfd 0
    given d (λ a. do
      modify (λ s. record s { ofile = update s.ofile a.fd 0 })
      on_files (fileclose a.file)
      pure (some 0))

module _ {D : Type 0} (dev : Devices D) where
  unfoldable pub sys_read : Cmd (SysState D) (Option ℕ)
  sys_read = do
    d ← argfd 0
    given d (λ a s.
        given (argint 2 s.caller)
          (λ n. given (argptr 1 n s.caller) (λ p. on_files (fileread dev a.file p n))) s)

  unfoldable pub sys_write : Cmd (SysState D) (Option ℕ)
  sys_write = do
    d ← argfd 0
    given d (λ a s.
        given (argint 2 s.caller)
          (λ n. given (argptr 1 n s.caller) (λ p. on_files (filewrite dev a.file p n))) s)
