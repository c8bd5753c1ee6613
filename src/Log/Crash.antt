-- ===== src/Log/Crash.antt =====
-- A crash keeps the disk and loses the memory. What is on the disk is what the writes so far made
-- of it.
use fp_sisop20_b.Prelude.{ℕ, List, [], ◌∷◌, ◌++◌, false, update}
use fp_sisop20_b.Log.{Blocks, Write, LogState}

-- The disk after these writes, the latest of which stands first.
abbrev pub after : List Write → Blocks → Blocks
after [] d = d
after (w ∷ ws) d = update (after ws d) (w.blockno) (w.words)

-- A predicate holds of the disk at every moment of these writes.
abbrev pub Always : (Blocks → Type 0) → Blocks → List Write → Type 0
Always P d [] = P d
Always P d (w ∷ ws) = P (after (w ∷ ws) d) × Always P d ws

pub Always-at :
    (P : Blocks → Type 0) (d : Blocks) (later earlier : List Write)
    → Always P d (later ++ earlier)
    → P (after earlier d)
Always-at P d [] [] h = h
Always-at P d [] (w ∷ ws) h = h.0
Always-at P d (w ∷ later) earlier h = Always-at P d later earlier h.1

-- The state in which initlog() finds the machine: the disk as it is, and nothing in memory but the
-- place of the log.
abbrev pub boot : (start size : ℕ) → Blocks → LogState
boot start size disk = record {
  log = record {
    start = start;
    size = size;
    outstanding = 0;
    committing = false;
    n = 0;
    block = λ i. 0;
  };
  store = record { disk = disk; buffers = disk; writes = [] };
}
