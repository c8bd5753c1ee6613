-- ===== src/Log/Group.antt =====
-- begin_op and end_op: the operations that share a transaction.
use fp_sisop20_b.Prelude.{
  ℕ, ◌+◌, ◌-◌, ◌*◌, ◌≤◌, ◌<◌, ◌≡◌, refl, ◌⊎◌, inl, inr, true, false, ◌||◌, [], arith, ◌==◌, ==→eq,
  ==_ne, ltb, Bool-cases,
}
use fp_sisop20_b.Run.{ok}
use fp_sisop20_b.Log.{
  LogState, logsize, maxopblocks, commit, begun, asleep, begin_op, leave_op, end_op,
}
use fp_sisop20_b.Log.Phases.{Trans}
use fp_sisop20_b.Log.Commit.{Committed, commit_lem}

-- The log has room for what every open operation may still write.
abbrev pub HasRoom : LogState → Type 0
HasRoom s = s.log.n + s.log.outstanding * maxopblocks ≤ logsize

sleeps :
    (s' : LogState)
    → (s'.log.committing || ltb logsize (s'.log.n + (s'.log.outstanding + 1) * maxopblocks)) ≡ true
    → begin_op s' ≡ ok asleep s'
unfolding begin_op
sleeps s' h = rw h refl

opens :
    (s' : LogState)
    → (s'.log.committing || ltb logsize (s'.log.n + (s'.log.outstanding + 1) * maxopblocks)) ≡ false
    → begin_op s'
      ≡ ok begun (record s' { log = record (s'.log) { outstanding = s'.log.outstanding + 1 } })
unfolding begin_op
opens s' h = rw h refl

fits :
    (n o : ℕ)
    → ltb logsize (n + (o + 1) * maxopblocks) ≡ false
    → n + (o + 1) * maxopblocks ≤ logsize
fits n o h = ground arith

-- begin_op goes to sleep while a commit runs or another operation could overfill the log, and
-- changes nothing. Otherwise it opens an operation, and the log then has room for all of them.
pub begin_op_lem :
    (s : LogState)
    → ((begin_op s ≡ ok asleep s)
        × ((s.log.committing ≡ true) ⊎ (logsize < s.log.n + (s.log.outstanding + 1) * maxopblocks)))
      ⊎ ((s' : LogState) × (begin_op s ≡ ok begun s')
          × (s.log.committing ≡ false)
          × (s'.log.outstanding ≡ s.log.outstanding + 1)
          × HasRoom s')
begin_op_lem s = elim (Bool-cases s.log.committing) [
  | inl busy ↦ inl (sleeps s (rw busy refl), inl busy)
  | inr idle ↦ elim (Bool-cases (ltb logsize (s.log.n + (s.log.outstanding + 1) * maxopblocks))) [
    | inl full ↦ inl (sleeps s (rw (idle, full) refl), inr (ground arith))
    | inr room ↦
        inr (_, opens s (rw (idle, room) refl), idle, refl, fits s.log.n s.log.outstanding room)
  ]
]

-- The state in which the last operation commits.
abbrev pub committing : LogState → LogState
committing s = record s { log = record (s.log) { outstanding = 0; committing = true } }

last_run :
    (s s' : LogState)
    → s.log.outstanding ≡ 1
    → s.log.committing ≡ false
    → commit (committing s) ≡ ok tt s'
    → end_op s ≡ ok tt (record s' { log = record (s'.log) { committing = false } })
unfolding end_op leave_op
last_run s s' one idle run = rw (one, idle, run) refl

early_run :
    (s : LogState)
    → 1 < s.log.outstanding
    → s.log.committing ≡ false
    → end_op s ≡ ok tt (record s { log = record (s.log) { outstanding = s.log.outstanding - 1 } })
unfolding end_op leave_op
early_run s more idle = rw (idle, ==_ne {a = s.log.outstanding - 1} {b = 0} (λ z. omega arith)) refl

-- end_op of an open operation, while no commit runs. With other operations open it only leaves, and
-- the disk does not change. The last one commits: it ends with an empty log that is open to new
-- operations, and its commit is one that a crash cannot tear.
pub end_op_lem :
    (s : LogState)
    → 0 < s.log.outstanding
    → s.log.committing ≡ false
    → Trans s.log.start s.log.size s.log.n s.log.block
    → s.store.disk s.log.start 0 ≡ 0
    → s.store.writes ≡ []
    → ((s' : LogState) × (end_op s ≡ ok tt s')
        × (s'.log.outstanding ≡ s.log.outstanding - 1)
        × (0 < s'.log.outstanding)
        × (s'.store ≡ s.store))
      ⊎ ((c s' : LogState) × (s.log.outstanding ≡ 1)
          × (end_op s ≡ ok tt s')
          × Committed (committing s) c
          × (s'.store ≡ c.store)
          × (s'.log.n ≡ 0)
          × (s'.log.committing ≡ false))
end_op_lem s o idle w empty fresh = elim (Bool-cases (s.log.outstanding == 1)) [
  | inl one ↦
      let (c, d) = commit_lem (committing s) w empty fresh in
      inr (
        c,
        record c { log = record (c.log) { committing = false } },
        ==→eq s.log.outstanding 1 one,
        last_run s c (==→eq s.log.outstanding 1 one) idle d.run,
        d,
        refl,
        d.emptied,
        refl,
      )
  | inr more ↦
      let h : 1 < s.log.outstanding = ground arith in
      inl (_, early_run s h idle, refl, omega arith, refl)
]
