-- ===== src/Pipe/Alloc.antt =====
-- pipealloc of pipe.c, on the table of open files. What kalloc() gives back is an argument.
pub mod Ends
pub mod Outcome
use fp_sisop20_b.Prelude.{
  ℕ, Bool, true, false, not, Option, none, some, List, ◌∷◌, ◌==◌, if◌then◌else◌, update,
}
use fp_sisop20_b.Run.{Run, ok, Cmd, pure, ◌>>=◌, ◌>>◌, lift_run, modify}
use fp_sisop20_b.Spinlock.{Spinlock}
use fp_sisop20_b.File.{FileType, fd_pipe, File, FileState, edit, filealloc, fileclose}
use fp_sisop20_b.Pipe.{Pipe, new_pipe}

-- `pipes` and `locks` hold the struct pipe at each address, and `freed` the calls of kfree.
pub record World (D : Type 0) : Type 0 where
  pub table : FileState D
  pub pipes : ℕ → Pipe
  pub locks : ℕ → Spinlock
  pub freed : List ℕ

-- initlock() on the lock of a pipe.
abbrev pub unheld : Spinlock
unheld = record { locked = false; cpu = 0 }

-- One end of the pipe at `p`.
unfoldable pub as_end : (p : ℕ) (writable : Bool) → File → File
as_end p writable q = record q {
  kind = fd_pipe;
  readable = not writable;
  writable = writable;
  pipe = p;
}

module _ {D : Type 0} where
  abbrev pub on_table : {A : Type 0} → Cmd (FileState D) A → Cmd (World D) A
  on_table m s = lift_run (λ t. record s { table = t }) (m s.table)

  unfoldable pub init_pipe : ℕ → Cmd (World D) (Unit {0})
  init_pipe p = modify (λ s. record s {
    pipes = update s.pipes p (new_pipe (s.pipes p).bytes);
    locks = update s.locks p unheld;
  })

  -- From the label `bad`.
  unfoldable pub bad : (p f0 f1 : ℕ) → Cmd (World D) (Option (ℕ × ℕ))
  bad p f0 f1 = do
    if p == 0 then pure tt else modify (λ s. record s { freed = p ∷ s.freed })
    if f0 == 0 then pure tt else on_table (fileclose f0)
    if f1 == 0 then pure tt else on_table (fileclose f1)
    pure none

  unfoldable pub pipealloc : (page : ℕ) → Cmd (World D) (Option (ℕ × ℕ))
  pipealloc page = do
    f0 ← on_table filealloc
    if f0 == 0 then bad 0 f0 0 else (do
      f1 ← on_table filealloc
      if f1 == 0 then bad 0 f0 f1 else if page == 0 then bad 0 f0 f1 else (do
        init_pipe page
        on_table (edit f0 (as_end page false))
        on_table (edit f1 (as_end page true))
        pure (some (f0, f1))))
