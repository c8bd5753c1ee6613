-- ===== src/Log.antt =====
-- log.c: the redo log of the file system. A block is an array of words, a function from their
-- indices. `buffers` is what bread() gives for each block, `disk` what stands on the disk, and
-- `writes` the writes that reached it, latest first. The buffer cache has room for the blocks that
-- the log pins and the two that a copy holds; one device is
-- modelled. The counters of `struct log` are never negative.
pub mod Crash
pub mod Phases
pub mod Install
pub mod Loops
pub mod Recover
pub mod Commit
pub mod Ops
pub mod Group
use fp_sisop20_b.Prelude.{
  ℕ, zero, suc, ◌+◌, ◌-◌, ◌*◌, ◌^◌, ◌≤◌, Bool, true, false, ◌&&◌, ◌||◌, List, [], ◌∷◌, ltb, leb,
  ◌==◌, if◌then◌else◌, update,
}
use fp_sisop20_b.Run.{ok, faults, Cmd, pure, panic, panic_if, ◌>>=◌, ◌>>◌, get, modify}

-- LOGSIZE and MAXOPBLOCKS of param.h.
abbrev pub maxopblocks : ℕ
maxopblocks = 10

abbrev pub logsize : ℕ
logsize = 30

abbrev pub Block : Type 0
Block = ℕ → ℕ

abbrev pub Blocks : Type 0
Blocks = ℕ → Block

pub record Write : Type 0 where
  pub blockno : ℕ
  pub words : Block

pub record Store : Type 0 where
  pub disk : Blocks
  pub buffers : Blocks
  pub writes : List Write

-- `struct log`, with `n` and `block` of its header; the words of `log.lh` are the fields of the
-- header on disk too, word 0 for `n` and word i + 1 for `block[i]`.
pub record Log : Type 0 where
  pub start : ℕ
  pub size : ℕ
  pub outstanding : ℕ
  pub committing : Bool
  pub n : ℕ
  pub block : ℕ → ℕ

pub record LogState : Type 0 where
  pub log : Log
  pub store : Store

-- A block's buffer gets new data and is written to disk.
unfoldable pub bwrite : ℕ → Block → Store → Store
bwrite b words st = record {
  disk = update st.disk b words;
  buffers = update st.buffers b words;
  writes = record { blockno = b; words = words } ∷ st.writes;
}

-- install_trans, with `n` blocks to go.
unfoldable pub install_loop : (n tail : ℕ) → Log → Store → Store
install_loop zero tail lg st = st
install_loop (suc n) tail lg st =
    install_loop n (tail + 1) lg (bwrite (lg.block tail) (st.buffers (lg.start + tail + 1)) st)

-- write_log, likewise.
unfoldable pub write_loop : (n tail : ℕ) → Log → Store → Store
write_loop zero tail lg st = st
write_loop (suc n) tail lg st =
    write_loop n (tail + 1) lg (bwrite (lg.start + tail + 1) (st.buffers (lg.block tail)) st)

-- How often a loop runs up to an `int` with this bit pattern.
abbrev pub rounds : ℕ → ℕ
rounds n = if ltb n (2 ^ 31) then n else 0

-- The loop of write_head.
unfoldable pub head_loop : (n i : ℕ) → (ℕ → ℕ) → Block → Block
head_loop zero i block hb = hb
head_loop (suc n) i block hb = head_loop n (i + 1) block (update hb (i + 1) (block i))

unfoldable pub write_head : Log → Store → Store
write_head lg st =
    bwrite lg.start (head_loop (rounds lg.n) 0 lg.block (update (st.buffers lg.start) 0 lg.n)) st

-- The loop of read_head.
unfoldable pub read_loop : (n i : ℕ) → Block → (ℕ → ℕ) → ℕ → ℕ
read_loop zero i lh block = block
read_loop (suc n) i lh block = read_loop n (i + 1) lh (update block i (lh (i + 1)))

-- read_head. A header with more blocks than the array has places is an access outside it.
unfoldable pub read_head : Cmd LogState (Unit {0})
read_head s =
    let lh = s.store.buffers s.log.start in
    if leb (rounds (lh 0)) logsize
    then ok tt (record s {
      log = record (s.log) { n = lh 0; block = read_loop (rounds (lh 0)) 0 lh s.log.block };
    })
    else faults

unfoldable pub install_trans : Cmd LogState (Unit {0})
install_trans = modify (λ s. record s { store = install_loop (rounds s.log.n) 0 s.log s.store })

unfoldable pub recover_from_log : Cmd LogState (Unit {0})
recover_from_log = do
  read_head
  install_trans
  modify (λ s. record s { log = record (s.log) { n = 0 } })
  modify (λ s. record s { store = write_head s.log s.store })

unfoldable pub write_log : Cmd LogState (Unit {0})
write_log = modify (λ s. record s { store = write_loop (rounds s.log.n) 0 s.log s.store })

unfoldable pub commit : Cmd LogState (Unit {0})
commit = do
  n ← get (λ s. rounds s.log.n)
  if n == 0 then pure tt else (do
    write_log
    modify (λ s. record s { store = write_head s.log s.store })
    install_trans
    modify (λ s. record s { log = record (s.log) { n = 0 } })
    modify (λ s. record s { store = write_head s.log s.store }))

-- What begin_op() does when it has the lock: it goes on, or sleeps on the log and looks again.
pub data Begun : Type 0 where
  begun asleep : Begun

unfoldable pub begin_op : Cmd LogState Begun
begin_op = do
  lg ← get (λ s. s.log)
  if lg.committing || ltb logsize (lg.n + (lg.outstanding + 1) * maxopblocks)
      then pure asleep
      else (do
        modify (λ s. record s { log = record (s.log) { outstanding = lg.outstanding + 1 } })
        pure begun)

-- end_op() up to where it gives the lock back; the result tells whether to commit. An operation is
-- open, so `outstanding` is not 0.
unfoldable pub leave_op : Cmd LogState Bool
leave_op = do
  lg ← get (λ s. s.log)
  modify (λ s. record s { log = record (s.log) { outstanding = lg.outstanding - 1 } })
  panic_if lg.committing "log.committing"
  if lg.outstanding - 1 == 0
      then (do modify (λ s. record s { log = record (s.log) { committing = true } }); pure true)
      else pure false

unfoldable pub end_op : Cmd LogState (Unit {0})
end_op = do
  do_commit ← leave_op
  if do_commit
      then (do commit; modify (λ s. record s { log = record (s.log) { committing = false } }))
      else pure tt

-- The search of log_write: the place of the block in the log, or the first free one.
unfoldable pub absorb_loop : (n i : ℕ) → (ℕ → ℕ) → ℕ → ℕ
absorb_loop zero i block b = i
absorb_loop (suc n) i block b =
    let rest = absorb_loop n (i + 1) block b in if block i == b then i else rest

-- log_write(b), for the buffer of block `b`: it is pinned in the cache.
unfoldable pub log_write : ℕ → Cmd LogState (Unit {0})
log_write b = do
  lg ← get (λ s. s.log)
  panic_if (leb logsize lg.n || leb (lg.size - 1) lg.n) "too big a transaction"
  panic_if (lg.outstanding == 0) "log_write outside of trans"
  let i = absorb_loop lg.n 0 lg.block b
  modify (λ s. record s {
    log = record (s.log) { block = update lg.block i b; n = if i == lg.n then lg.n + 1 else lg.n };
  })

-- initlog, with `logstart` and `nlog` of the superblock. A `struct logheader` of 124 bytes is
-- smaller than a block of 512.
unfoldable pub initlog : (logstart nlog : ℕ) → Cmd LogState (Unit {0})
initlog logstart nlog = do
  panic_if (leb 512 (4 * (logsize + 1))) "initlog: too big logheader"
  modify (λ s. record s { log = record (s.log) { start = logstart; size = nlog } })
  recover_from_log
