-- ===== src/Tests/Log.antt =====
-- The theorems on the log, at a log of two blocks that starts at block 2.
use fp_sisop20_b.Prelude.{
  ◌+◌, ◌-◌, ◌*◌, ◌≤◌, ◌<◌, ◌≡◌, refl, ◌⊎◌, inr, false, true, [], arith, ◌==◌, if◌then◌else◌,
}
use fp_sisop20_b.Run.{ok, panics}
use fp_sisop20_b.Log.{
  LogState, Log, logsize, maxopblocks, begun, asleep, begin_op, end_op, log_write,
}
use fp_sisop20_b.Log.Phases.{Trans}
use fp_sisop20_b.Log.Commit.{Committed, commit_lem}
use fp_sisop20_b.Log.Ops.{Logged, log_write_lem}
use fp_sisop20_b.Log.Group.{HasRoom, begin_op_lem, committing, end_op_lem}

abbrev two : Log
two = record {
  start = 2;
  size = 31;
  outstanding = 1;
  committing = false;
  n = 2;
  block = λ i. if i == 0 then 50 else 60;
}

-- Block b holds b on the disk and b + 1 in its buffer; the log's header is empty.
abbrev logged : LogState
logged = record {
  log = two;
  store = record { disk = λ b i. if b == 2 then 0 else b; buffers = λ b i. b + 1; writes = [] };
}

two-Trans : Trans 2 31 2 two.block
two-Trans = record { fits = omega arith; small = omega arith; home = λ i h. inr (ground arith) }

commit_example : (s' : LogState) × Committed logged s'
commit_example = commit_lem logged two-Trans refl refl

end_op_example :
    ((s' : LogState) × (end_op logged ≡ ok tt s')
      × (s'.log.outstanding ≡ 0)
      × (0 < s'.log.outstanding)
      × (s'.store ≡ logged.store))
    ⊎ ((c s' : LogState) × (logged.log.outstanding ≡ 1)
        × (end_op logged ≡ ok tt s')
        × Committed (committing logged) c
        × (s'.store ≡ c.store)
        × (s'.log.n ≡ 0)
        × (s'.log.committing ≡ false))
end_op_example = end_op_lem logged (omega arith) refl two-Trans refl refl

begin_op_example :
    ((begin_op logged ≡ ok asleep logged)
      × ((false ≡ true) ⊎ (logsize < 2 + (1 + 1) * maxopblocks)))
    ⊎ ((s' : LogState) × (begin_op logged ≡ ok begun s')
        × (false ≡ false)
        × (s'.log.outstanding ≡ 2)
        × HasRoom s')
begin_op_example = begin_op_lem logged

log_write_example :
    (((logsize ≤ 2) ⊎ (31 - 1 ≤ 2)) × (log_write 70 logged ≡ panics "too big a transaction"))
    ⊎ ((logged.log.outstanding ≡ 0) × (log_write 70 logged ≡ panics "log_write outside of trans"))
    ⊎ ((s' : LogState) × (log_write 70 logged ≡ ok tt s') × Logged logged 70 s')
log_write_example = log_write_lem logged 70
