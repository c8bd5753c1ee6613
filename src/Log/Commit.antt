-- ===== src/Log/Commit.antt =====
-- commit(): whenever the machine stops, recovery finds all of the transaction or nothing of it.
use fp_sisop20_b.Prelude.{
  ℕ, ◌+◌, ◌≤◌, ◌≡◌, refl, sym, ap, subst, ◌∙◌, ◌⊎◌, inl, inr, true, false, List, [], ◌++◌, arith,
  update, update_self, update_ne, ◌==◌, ==→eq, Bool-cases,
}
use fp_sisop20_b.Run.{ok}
use fp_sisop20_b.Log.{
  Block, Blocks, Write, Store, Log, LogState, bwrite, install_loop, write_loop, head_loop,
  write_head, rounds, install_trans, write_log, commit,
}
use fp_sisop20_b.Log.Crash.{after, Always, Always-at}
use fp_sisop20_b.Log.Phases.{IsHome, installed, Trans, Header, IsOld, IsCommitted}
use fp_sisop20_b.Log.Install.{home_ne, bwrite-disk, Logged, Placed, Traced, Traced-bwrite}
use fp_sisop20_b.Log.Loops.{write_loop-Logged, install_loop-Placed, head_loop_lem}
use fp_sisop20_b.Log.Recover.{
  write_head-empty, cleared, count_rounds, Recovered, recover_old, recover_committed,
}

-- The disk in some phase of the commit.
abbrev InPhase : (start size n : ℕ) → (ℕ → ℕ) → (new old disk : Blocks) → Type 0
InPhase start size n block new old disk =
    IsOld start size old disk
    ⊎ ((j : ℕ) × (j ≤ n) × IsCommitted start size n block new old j disk)
    ⊎ IsOld start size (installed n block new old) disk

-- The header block as write_head leaves it.
abbrev header_of : Log → Store → Block
header_of lg st = head_loop lg.n 0 lg.block (update (st.buffers lg.start) 0 lg.n)

write_head_full :
    (lg : Log) (st : Store)
    → rounds lg.n ≡ lg.n
    → write_head lg st ≡ bwrite lg.start (header_of lg st) st
unfolding write_head
write_head_full lg st e = rw e refl

header_of-Header : (lg : Log) (st : Store) → Header lg.n lg.block (header_of lg st)
header_of-Header lg st = record {
  count =
      (head_loop_lem lg.n 0 lg.block (update (st.buffers lg.start) 0 lg.n) 0).0 (omega arith)
      ∙ update_self (st.buffers lg.start) 0 lg.n;
  entries = λ i h.
      (head_loop_lem lg.n 0 lg.block (update (st.buffers lg.start) 0 lg.n) (i + 1)).1 i
        (omega arith) (omega arith) refl;
}

commit_run :
    (s : LogState)
    → (rounds s.log.n == 0) ≡ false
    → let lg = s.log in
      let st =
        install_loop (rounds lg.n) 0 lg (write_head lg (write_loop (rounds lg.n) 0 lg s.store)) in
      commit s
      ≡ ok tt (record { log = record lg { n = 0 }; store = write_head (record lg { n = 0 }) st })
unfolding commit write_log install_trans
commit_run s h = rw h refl

stores :
    (lg : Log) (st : Store)
    → rounds lg.n ≡ lg.n
    → let st1 = write_loop lg.n 0 lg st in
      let st3 = install_loop lg.n 0 lg (bwrite lg.start (header_of lg st1) st1) in
      write_head
        (record lg { n = 0 })
        (install_loop (rounds lg.n) 0 lg (write_head lg (write_loop (rounds lg.n) 0 lg st)))
      ≡ bwrite lg.start (update (st3.buffers lg.start) 0 0) st3
stores lg st e =
    let lg0 : Log = record lg { n = 0 } in
    ap (λ m. write_head lg0 (install_loop m 0 lg (write_head lg (write_loop m 0 lg st)))) e
    ∙ ap (λ x. write_head lg0 (install_loop lg.n 0 lg x))
        (write_head_full lg (write_loop lg.n 0 lg st) e)
    ∙ write_head-empty lg0 _ refl

commit_nothing : (s : LogState) → (rounds s.log.n == 0) ≡ true → commit s ≡ ok tt s
unfolding commit
commit_nothing s h = rw h refl

-- The commit point: the header is written.
module _ (lg : Log) (new old : Blocks) (w : Trans lg.start lg.size lg.n lg.block) where
  headed-Placed :
      (st : Store)
      → Logged lg.start lg.size lg.n lg.block new old w lg.n st
      → Placed lg.start lg.size lg.n lg.block new old w 0 (bwrite lg.start (header_of lg st) st)
  unfolding bwrite
  headed-Placed st l = record {
    is_committed = record {
      header =
          subst (Header lg.n lg.block) (sym (update_self st.disk lg.start (header_of lg st)))
            (header_of-Header lg st);
      logged = λ i h. update_ne st.disk lg.start _ (λ z. omega arith) ∙ l.logged i h;
      homes = λ b hb.
          update_ne st.disk lg.start _
            (home_ne lg.start lg.size b lg.start hb (omega arith) (omega (arith, w.fits)))
          ∙ l.is_old.homes b hb;
    };
    cached = λ i h. update_ne st.buffers lg.start _ (λ z. omega arith) ∙ l.cached i h;
  }

-- What a commit ends in, and what a crash during it leaves for the recovery.
pub record Committed (s s' : LogState) : Type 0 where
  pub run : commit s ≡ ok tt s'
  pub emptied : s'.log.n ≡ 0
  pub done :
      (b : ℕ)
      → IsHome s.log.start s.log.size b
      → s'.store.disk b ≡ installed s.log.n s.log.block s.store.buffers s.store.disk b
  pub header : s'.store.disk s.log.start 0 ≡ 0
  pub atomic :
      (later earlier : List Write)
      → s'.store.writes ≡ later ++ earlier
      → let crashed = after earlier s.store.disk in
        ((r : LogState) × Recovered s.log.start s.log.size s.store.disk crashed r)
        ⊎ ((r : LogState) × Recovered s.log.start s.log.size
              (installed s.log.n s.log.block s.store.buffers s.store.disk)
              crashed
              r)

module _ (s : LogState) (w : Trans s.log.start s.log.size s.log.n s.log.block)
    (empty : s.store.disk s.log.start 0 ≡ 0) (fresh : s.store.writes ≡ []) where
  abbrev new : Blocks
  new = s.store.buffers

  abbrev old : Blocks
  old = s.store.disk

  P : Blocks → Type 0
  P = InPhase s.log.start s.log.size s.log.n s.log.block new old

  first : IsOld s.log.start s.log.size old old
  first = record { header = empty; homes = λ b hb. refl }

  recovers :
      (disk : Blocks)
      → P disk
      → ((r : LogState) × Recovered s.log.start s.log.size old disk r)
        ⊎ ((r : LogState) × Recovered s.log.start s.log.size
              (installed s.log.n s.log.block new old)
              disk
              r)
  unfolding P
  recovers disk (inl o) =
      inl (recover_old s.log.start s.log.size old disk (omega (arith, w.fits)) o)
  recovers disk (inr (inl (j, h, c))) =
      inr (recover_committed s.log.start s.log.size s.log.n s.log.block new old disk j w h c)
  recovers disk (inr (inr o)) =
      inr (recover_old s.log.start s.log.size _ disk (omega (arith, w.fits)) o)

  -- Whatever the writes of a traced store are, each prefix of them recovers.
  prefixes :
      (st : Store)
      → Traced P old st
      → (later earlier : List Write) → st.writes ≡ later ++ earlier
      → P (after earlier old)
  prefixes st tr later earlier e = Always-at P old later earlier (subst (Always P old) e tr.always)

  start-Traced : Traced P old s.store
  unfolding P
  start-Traced = record { replayed = rw fresh refl; always = rw fresh (inl first) }

  full : (rounds s.log.n == 0) ≡ false → (s' : LogState) × Committed s s'
  unfolding P
  full h =
      let lg = s.log in
      let e : rounds lg.n ≡ lg.n = count_rounds lg.n w.small in
      let start_logged : Logged lg.start lg.size lg.n lg.block new old w 0 s.store = record {
        is_old = first;
        fresh = λ b hb. refl;
        logged = λ i hi. absurd (omega arith);
        cached = λ i hi. absurd (omega arith);
      } in
      let (l1, t1) =
        write_loop-Logged lg lg.n new old w P old lg.n 0 s.store (omega arith) (λ d o. inl o)
          start_logged start-Traced in
      let st1 = write_loop lg.n 0 lg s.store in
      let p2 = headed-Placed lg new old w st1 l1 in
      let st2 = bwrite lg.start (header_of lg st1) st1 in
      let t2 = Traced-bwrite P old lg.start (header_of lg st1) st1 t1 (
        inr (
          inl (
            0,
            omega arith,
            subst (IsCommitted lg.start lg.size lg.n lg.block new old 0)
                (bwrite-disk lg.start (header_of lg st1) st1) p2.is_committed,
          ))) in
      let (p3, t3) =
        install_loop-Placed lg lg.n new old w P old lg.n 0 st2 (omega arith)
          (λ i d hi c. inr (inl (i, hi, c))) p2 t2 in
      let st3 = install_loop lg.n 0 lg st2 in
      let x = update (st3.buffers lg.start) 0 0 in
      let clean =
        cleared lg.start lg.size (installed lg.n lg.block new old) st3.disk (st3.buffers lg.start)
          (omega (arith, w.fits)) p3.is_committed.homes in
      let t4 = Traced-bwrite P old lg.start x st3 t3 (inr (inr clean)) in
      let st4 = bwrite lg.start x st3 in
      let clean' : IsOld lg.start lg.size (installed lg.n lg.block new old) st4.disk =
        subst (IsOld lg.start lg.size _) (sym (bwrite-disk lg.start x st3)) clean in
      let s' : LogState = record { log = record lg { n = 0 }; store = st4 } in
      (
        s',
        record {
          run =
              commit_run s h
              ∙ ap (λ st. ok tt (record { log = record lg { n = 0 }; store = st }))
                  (stores lg s.store e);
          emptied = refl;
          done = clean'.homes;
          header = clean'.header;
          atomic =
              λ later earlier e'. recovers (after earlier old) (prefixes st4 t4 later earlier e');
        },
      )

  nothing : (rounds s.log.n == 0) ≡ true → (s' : LogState) × Committed s s'
  unfolding P
  nothing h =
      let n : s.log.n ≡ 0 = sym (count_rounds s.log.n w.small) ∙ ==→eq (rounds s.log.n) 0 h in
      (
        s,
        record {
          run = commit_nothing s h;
          emptied = n;
          done = λ b hb. rw n refl;
          header = empty;
          atomic = λ later earlier e.
              recovers (after earlier old) (prefixes s.store start-Traced later earlier e);
        },
      )

-- commit() of a transaction of home blocks that fits into the log, from a disk with an empty log: it
-- ends with an empty log and with the buffers of exactly the transaction's blocks on the disk. And
-- whatever prefix of its disk writes a crash lets through, recover_from_log() then brings the home
-- blocks to what they were before the commit, all of them, or to what they are after it, all of
-- them, and leaves an empty log.
pub commit_lem :
    (s : LogState)
    → Trans s.log.start s.log.size s.log.n s.log.block
    → s.store.disk s.log.start 0 ≡ 0
    → s.store.writes ≡ []
    → (s' : LogState) × Committed s s'
commit_lem s w empty fresh = elim (Bool-cases (rounds s.log.n == 0)) [
  | inl none ↦ nothing s w empty fresh none
  | inr some_ ↦ full s w empty fresh some_
]
