-- ===== src/File.antt =====
-- file.c: the table of open files. A file is named by its place 1 to 100 in ftable.file, and 0 is null.
-- A result -1 is `none`.
pub mod Refs
pub mod Close
pub mod Write
pub mod Progress
pub mod Finish
use fp_sisop20_b.Prelude.{
  ℕ, zero, suc, ◌+◌, ◌-◌, ◌*◌, ◌/◌, ◌%◌, ◌^◌, Bool, true, false, not, ◌&&◌, ◌||◌, Option, none,
  some, List, [], ◌∷◌, ltb, leb, ◌==◌, if◌then◌else◌, update,
}
use fp_sisop20_b.Run.{
  Run, ok, panics, spins, faults, exhausted, lift_run, Cmd, pure, panic, panic_if, ◌>>=◌, ◌>>◌, get,
  modify,
}
use fp_sisop20_b.Spinlock.{Sync, initlock, acquire, release}
use fp_sisop20_b.Log.{logsize}

-- NFILE.
abbrev pub nfile : ℕ
nfile = 100

pub data FileType : Type 0 where
  fd_none fd_pipe fd_inode : FileType

pub record File : Type 0 where
  pub kind : FileType
  pub ref : ℕ
  pub readable : Bool
  pub writable : Bool
  pub pipe : ℕ
  pub ip : ℕ
  pub off : ℕ

-- The calls of pipe.c, log.c and fs.c that give no result, latest first.
pub data Call : Type 0 where
  pipeclose : ℕ → Bool → Call
  begin_op end_op : Call
  iput ilock iunlock : ℕ → Call

-- The functions of pipe.c and fs.c that do the input and output, on a state of their own.
pub record Devices (D : Type 0) : Type 1 where
  pub piperead : (pipe addr n : ℕ) → D → Option ℕ × D
  pub pipewrite : (pipe addr n : ℕ) → D → Option ℕ × D
  pub readi : (ip addr off n : ℕ) → D → Option ℕ × D
  pub writei : (ip addr off n : ℕ) → D → Option ℕ × D
  pub stati : (ip st : ℕ) → D → D

pub record FileState (D : Type 0) : Type 0 where
  pub files : ℕ → File
  pub sync : Sync
  pub calls : List Call
  pub device : D

-- `r < 1` on an `int`.
abbrev pub below_one : ℕ → Bool
below_one r = r == 0 || leb (2 ^ 31) r

-- `i < n` on an `int` that is not negative and another.
abbrev pub is_less : (i n : ℕ) → Bool
is_less i n = ltb n (2 ^ 31) && ltb i n

-- `f->ref = 0; f->type = FD_NONE;`
abbrev pub closed : File → File
closed q = record q { ref = 0; kind = fd_none }

abbrev pub set_ref : ℕ → File → File
set_ref r q = record q { ref = r }

-- `f->off += r`
abbrev pub advance_off : ℕ → File → File
advance_off r q = record q { off = (q.off + r) % 2 ^ 32 }

-- `((LOGSIZE-1-1-2) / 2) * 512`
abbrev pub max_write : ℕ
max_write = (logsize - 1 - 1 - 2) / 2 * 512

-- `n - i`, or `max` where that is less.
abbrev pub portion : (i n : ℕ) → ℕ
portion i n = if ltb max_write (n - i) then max_write else n - i

module _ {D : Type 0} where
  abbrev pub on_sync : {A : Type 0} → Cmd Sync A → Cmd (FileState D) A
  on_sync m s = lift_run (λ y. record s { sync = y }) (m s.sync)

  abbrev pub edit : ℕ → (File → File) → Cmd (FileState D) (Unit {0})
  edit f g = modify (λ s. record s { files = update s.files f (g (s.files f)) })

  abbrev pub call : Call → Cmd (FileState D) (Unit {0})
  call c = modify (λ s. record s { calls = c ∷ s.calls })

  -- A call of a device, whose result it passes on.
  abbrev pub on_device : {A : Type 0} → (D → A × D) → Cmd (FileState D) A
  on_device g s = ok (g s.device).0 (record s { device = (g s.device).1 })

  unfoldable pub fileinit : Cmd (FileState D) (Unit {0})
  fileinit = on_sync initlock

  -- The loop of filealloc, with `n` files left from `f` on.
  unfoldable pub alloc_loop : (n f : ℕ) → Cmd (FileState D) ℕ
  alloc_loop zero f = do on_sync release; pure 0
  alloc_loop (suc n) f = do
    q ← get (λ s. s.files f)
    if q.ref == 0 then (do edit f (set_ref 1); on_sync release; pure f) else alloc_loop n (f + 1)

  unfoldable pub filealloc : Cmd (FileState D) ℕ
  filealloc = do on_sync acquire; alloc_loop nfile 1

  unfoldable pub filedup : ℕ → Cmd (FileState D) ℕ
  filedup f = do
    on_sync acquire
    q ← get (λ s. s.files f)
    panic_if (below_one q.ref) "filedup"
    edit f (set_ref ((q.ref + 1) % 2 ^ 32))
    on_sync release
    pure f

  -- The end of fileclose, after the last reference.
  unfoldable pub let_go : FileType → File → Cmd (FileState D) (Unit {0})
  let_go fd_none q = pure tt
  let_go fd_pipe q = call (pipeclose q.pipe q.writable)
  let_go fd_inode q = do call begin_op; call (iput q.ip); call end_op

  unfoldable pub fileclose : ℕ → Cmd (FileState D) (Unit {0})
  fileclose f = do
    on_sync acquire
    q ← get (λ s. s.files f)
    panic_if (below_one q.ref) "fileclose"
    edit f (set_ref (q.ref - 1))
    ff ← get (λ s. s.files f)
    if not (below_one ff.ref)
        then on_sync release
        else do edit f closed; on_sync release; let_go ff.kind ff

  -- `if((r = ...) > 0) f->off += r;`
  abbrev pub move_off : ℕ → Option ℕ → Cmd (FileState D) (Unit {0})
  move_off f none = pure tt
  move_off f (some r) = if r == 0 then pure tt else edit f (advance_off r)

  -- The tests on `r`: stop, panic, or go on with `rest`.
  abbrev pub after_round : Option ℕ → (i n : ℕ) → Cmd (FileState D) ℕ → Cmd (FileState D) ℕ
  after_round none i n rest = pure i
  after_round (some r) i n rest = if r == portion i n then rest else panic "short filewrite"

module _ {D : Type 0} (dev : Devices D) where
  unfoldable pub stat_as : FileType → File → (st : ℕ) → Cmd (FileState D) (Option ℕ)
  stat_as fd_none q st = pure none
  stat_as fd_pipe q st = pure none
  stat_as fd_inode q st = do
    call (ilock q.ip)
    modify (λ s. record s { device = dev.stati q.ip st s.device })
    call (iunlock q.ip)
    pure (some 0)

  unfoldable pub filestat : (f st : ℕ) → Cmd (FileState D) (Option ℕ)
  filestat f st = do q ← get (λ s. s.files f); stat_as q.kind q st

  unfoldable pub read_as : FileType → File → (f addr n : ℕ) → Cmd (FileState D) (Option ℕ)
  read_as fd_none q f addr n = panic "fileread"
  read_as fd_pipe q f addr n = on_device (dev.piperead q.pipe addr n)
  read_as fd_inode q f addr n = do
    call (ilock q.ip)
    r ← on_device (dev.readi q.ip addr q.off n)
    move_off f r
    call (iunlock q.ip)
    pure r

  unfoldable pub fileread : (f addr n : ℕ) → Cmd (FileState D) (Option ℕ)
  fileread f addr n = do
    q ← get (λ s. s.files f)
    if not q.readable then pure none else read_as q.kind q f addr n

  -- One round of filewrite's loop, up to the tests on `r`.
  unfoldable pub write_round : (f addr i n : ℕ) → Cmd (FileState D) (Option ℕ)
  write_round f addr i n = do
    call begin_op
    q ← get (λ s. s.files f)
    call (ilock q.ip)
    r ← on_device (dev.writei q.ip (addr + i) q.off (portion i n))
    move_off f r
    call (iunlock q.ip)
    call end_op
    pure r

  -- The loop of filewrite, which gives `i`.
  unfoldable pub write_loop : (fuel f addr i n : ℕ) → Cmd (FileState D) ℕ
  write_loop zero f addr i n = λ _. exhausted
  write_loop (suc m) f addr i n =
      if is_less i n
      then (do
        r ← write_round f addr i n
        after_round r i n (write_loop m f addr (i + portion i n) n))
      else pure i

  -- Each round but the last adds at least 1 to `i`, so `n + 1` rounds are enough.
  unfoldable pub write_as : FileType → File → (f addr n : ℕ) → Cmd (FileState D) (Option ℕ)
  write_as fd_none q f addr n = panic "filewrite"
  write_as fd_pipe q f addr n = on_device (dev.pipewrite q.pipe addr n)
  write_as fd_inode q f addr n = do
    i ← write_loop (n + 1) f addr 0 n
    pure (if i == n then some n else none)

  unfoldable pub filewrite : (f addr n : ℕ) → Cmd (FileState D) (Option ℕ)
  filewrite f addr n = do
    q ← get (λ s. s.files f)
    if not q.writable then pure none else write_as q.kind q f addr n
