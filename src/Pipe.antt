-- ===== src/Pipe.antt =====
-- pipe.c: a ring of 512 bytes with two counters that run on and wrap around at 2 ^ 32. The process's
-- `killed` flag is an argument.
pub mod Ring
pub mod Transfer
pub mod Receive
pub mod Trip
pub mod Alloc
use fp_sisop20_b.Prelude.{
  ℕ, zero, suc, ◌+◌, ◌%◌, ◌^◌, Bool, true, false, not, ◌&&◌, ◌||◌, List, [], ◌∷◌, ◌==◌,
  if◌then◌else◌, update,
}
use fp_sisop20_b.Run.{
  Run, ok, panics, spins, faults, exhausted, lift_run, Cmd, pure, ◌>>=◌, ◌>>◌, get, modify,
}
use fp_sisop20_b.Spinlock.{Sync, acquire, release}

-- PIPESIZE.
abbrev pub pipesize : ℕ
pipesize = 512

-- `struct pipe` without its lock.
pub record Pipe : Type 0 where
  pub bytes : ℕ → ℕ
  pub nread : ℕ
  pub nwrite : ℕ
  pub readopen : Bool
  pub writeopen : Bool

-- What is called outside: a wakeup of those that sleep on `nread` or on `nwrite`, and kfree().
pub data Call : Type 0 where
  wake_readers wake_writers kfree : Call

pub record PipeState : Type 0 where
  pub pipe : Pipe
  pub sync : Sync
  pub calls : List Call

abbrev pub on_sync : {A : Type 0} → Cmd Sync A → Cmd PipeState A
on_sync m s = lift_run (λ y. record s { sync = y }) (m s.sync)

abbrev pub call : Call → Cmd PipeState (Unit {0})
call c = modify (λ s. record s { calls = c ∷ s.calls })

abbrev pub edit : (Pipe → Pipe) → Cmd PipeState (Unit {0})
edit f = modify (λ s. record s { pipe = f s.pipe })

-- `p->nwrite == p->nread + PIPESIZE`
abbrev pub is_full : Pipe → Bool
is_full p = p.nwrite == (p.nread + pipesize) % 2 ^ 32

abbrev pub is_empty : Pipe → Bool
is_empty p = p.nread == p.nwrite

-- `p->data[p->nwrite++ % PIPESIZE] = b`
unfoldable pub put : ℕ → Pipe → Pipe
put b p = record p {
  bytes = update p.bytes (p.nwrite % pipesize) b;
  nwrite = (p.nwrite + 1) % 2 ^ 32;
}

-- `p->nread++`
unfoldable pub advance : Pipe → Pipe
advance p = record p { nread = (p.nread + 1) % 2 ^ 32 }

-- The pipe of pipealloc().
abbrev pub new_pipe : (ℕ → ℕ) → Pipe
new_pipe junk = record { bytes = junk; nread = 0; nwrite = 0; readopen = true; writeopen = true }

-- All bytes are written; the reader is gone or the process killed; or it sleeps before byte `i`.
pub data Written : Type 0 where
  done dead : Written
  asleep : (i : ℕ) → Written

-- The loop of pipewrite at byte `i`, with `m` bytes to go. A process that wakes goes on here.
unfoldable pub write_loop : (m i : ℕ) (addr : ℕ → ℕ) (killed : Bool) → Cmd PipeState Written
write_loop zero i addr killed = pure done
write_loop (suc m) i addr killed = do
  p ← get (λ s. s.pipe)
  if is_full p
      then (if not p.readopen || killed then pure dead else (do call wake_readers; pure (asleep i)))
      else (do edit (put (addr i)); write_loop m (i + 1) addr killed)

-- What follows the loop, unless the process sleeps.
unfoldable pub write_end : Written → Cmd PipeState Written
write_end done = do call wake_readers; on_sync release; pure done
write_end dead = do on_sync release; pure dead
write_end (asleep i) = pure (asleep i)

unfoldable pub pipewrite : (addr : ℕ → ℕ) (n : ℕ) (killed : Bool) → Cmd PipeState Written
pipewrite addr n killed = do on_sync acquire; r ← write_loop n 0 addr killed; write_end r

-- The bytes read, in order; or the process is killed; or it sleeps.
pub data Read : Type 0 where
  got : List ℕ → Read
  killed_read asleep_read : Read

-- The copying loop of piperead.
unfoldable pub read_loop : (n : ℕ) → Cmd PipeState (List ℕ)
read_loop zero = pure []
read_loop (suc n) = do
  p ← get (λ s. s.pipe)
  if is_empty p
      then pure []
      else (do edit advance; bs ← read_loop n; pure (p.bytes (p.nread % pipesize) ∷ bs))

-- piperead with the lock held; a process that wakes starts here again.
unfoldable pub read_locked : (n : ℕ) (killed : Bool) → Cmd PipeState Read
read_locked n killed = do
  p ← get (λ s. s.pipe)
  if is_empty p && p.writeopen
      then (if killed then (do on_sync release; pure killed_read) else pure asleep_read)
      else (do bs ← read_loop n; call wake_writers; on_sync release; pure (got bs))

unfoldable pub piperead : (n : ℕ) (killed : Bool) → Cmd PipeState Read
piperead n killed = do on_sync acquire; read_locked n killed

unfoldable pub pipeclose : (writable : Bool) → Cmd PipeState (Unit {0})
pipeclose writable = do
  on_sync acquire
  if writable
      then (do edit (λ p. record p { writeopen = false }); call wake_readers)
      else (do edit (λ p. record p { readopen = false }); call wake_writers)
  p ← get (λ s. s.pipe)
  if not p.readopen && not p.writeopen then (do on_sync release; call kfree) else on_sync release
