-- ===== src/Log/Recover.antt =====
-- recover_from_log: from every disk that a crash can leave, the home blocks become the old ones or
-- the new ones.
use fp_sisop20_b.Prelude.{
  ℕ, zero, suc, ◌≤◌, ◌<◌, ◌≡◌, refl, [], ◌||◌, sym, ap, ap₂, subst, ◌∙◌, true, false, arith, leb,
  le→leb, update, update_self, update_ne, if◌then◌else◌, ◌==◌,
}
use fp_sisop20_b.Run.{ok}
use fp_sisop20_b.Log.{
  Block, Blocks, Store, Log, LogState, logsize, bwrite, install_loop, head_loop, write_head,
  read_loop, rounds, read_head, install_trans, recover_from_log,
}
use fp_sisop20_b.Log.Crash.{boot}
use fp_sisop20_b.Log.Phases.{IsHome, among, installed, installed_again, Trans, IsOld, IsCommitted}
use fp_sisop20_b.Log.Install.{home_ne, bwrite-disk, Placed}
use fp_sisop20_b.Log.Loops.{install_loop-Placed, read_loop_lem}

-- write_head with an empty log.
pub write_head-empty :
    (lg : Log) (st : Store)
    → lg.n ≡ 0
    → write_head lg st ≡ bwrite lg.start (update (st.buffers lg.start) 0 0) st
unfolding write_head head_loop
write_head-empty lg st e = rw e refl

-- Clearing the header keeps the home blocks.
pub cleared :
    (start size : ℕ) (E disk : Blocks) (x : Block)
    → 0 < size
    → ((b : ℕ) → IsHome start size b → disk b ≡ E b)
    → IsOld start size E (update disk start (update x 0 0))
cleared start size E disk x h same = record {
  header =
      ap {A = Block} {B = ℕ} (λ v. v 0) (update_self disk start (update x 0 0)) ∙ update_self x 0 0;
  homes = λ b hb.
      update_ne disk start (update x 0 0)
        (home_ne start size b start hb (omega arith) (omega arith))
      ∙ same b hb;
}

-- The log as read_head reads it.
abbrev read_log : (start size : ℕ) → Block → Log
read_log start size lh = record {
  start = start;
  size = size;
  outstanding = 0;
  committing = false;
  n = lh 0;
  block = read_loop (rounds (lh 0)) 0 lh (λ i. 0);
}

recover_run :
    (start size : ℕ) (disk : Blocks)
    → leb (rounds (disk start 0)) logsize ≡ true
    → let lg = read_log start size (disk start) in
      let st =
        install_loop
          (rounds (disk start 0))
          0
          lg
          (record { disk = disk; buffers = disk; writes = [] }) in
      recover_from_log (boot start size disk)
      ≡ ok tt (record {
        log = record lg { n = 0 };
        store = bwrite start (update (st.buffers start) 0 0) st;
      })
unfolding recover_from_log read_head install_trans
recover_run start size disk h = rw h (
    ap
      (λ st.
        ok tt (record { log = record (read_log start size (disk start)) { n = 0 }; store = st }))
      (write_head-empty (record (read_log start size (disk start)) { n = 0 }) _ refl))

pub among-ext :
    (n : ℕ) (block block' : ℕ → ℕ) (b : ℕ)
    → ((i : ℕ) → i < n → block' i ≡ block i)
    → among n block' b ≡ among n block b
among-ext zero block block' b h = refl
among-ext (suc n) block block' b h =
    ap₂ (λ x r. (b == x) || r) (h n (omega arith))
      (among-ext n block block' b (λ i hi. h i (omega arith)))

-- What a recovery ends in: an empty log, and `E` in the home blocks.
pub record Recovered (start size : ℕ) (E disk : Blocks) (s' : LogState) : Type 0 where
  pub run : recover_from_log (boot start size disk) ≡ ok tt s'
  pub clean : IsOld start size E s'.store.disk
  pub empty : s'.log.n ≡ 0

install_none : (m j : ℕ) (lg : Log) (st : Store) → m ≡ 0 → install_loop m j lg st ≡ st
unfolding install_loop
install_none m j lg st e = rw e refl

-- The end of a recovery whose installation has left `E` in the home blocks.
ended :
    (start size : ℕ) (E disk : Blocks)
    → 0 < size
    → leb (rounds (disk start 0)) logsize ≡ true
    → let st =
        install_loop
          (rounds (disk start 0))
          0
          (read_log start size (disk start))
          (record { disk = disk; buffers = disk; writes = [] }) in
      ((b : ℕ) → IsHome start size b → st.disk b ≡ E b)
      → (s' : LogState) × Recovered start size E disk s'
ended start size E disk pos small same =
    let lg = read_log start size (disk start) in
    let st =
      install_loop (rounds (disk start 0)) 0 lg
        (record { disk = disk; buffers = disk; writes = [] }) in
    (
      _,
      record {
        run = recover_run start size disk small;
        clean =
            subst (IsOld start size E) (sym (bwrite-disk start (update (st.buffers start) 0 0) st))
              (cleared start size E st.disk (st.buffers start) pos same);
        empty = refl;
      },
    )

pub recover_old :
    (start size : ℕ) (old disk : Blocks)
    → 0 < size
    → IsOld start size old disk
    → (s' : LogState) × Recovered start size old disk s'
recover_old start size old disk pos o =
    let none : rounds (disk start 0) ≡ 0 = ap rounds o.header in
    ended start size old disk pos (rw none refl) (λ b hb.
      ap {A = Store} {B = Block} (λ st. st.disk b) (install_none (rounds (disk start 0)) 0 _ _ none)
      ∙ o.homes b hb)

pub count_rounds : (n : ℕ) → n ≤ logsize → rounds n ≡ n
count_rounds n h = ground arith

module _ (start size n : ℕ) (block : ℕ → ℕ) (new old disk : Blocks) (j : ℕ)
    (w : Trans start size n block) (hj : j ≤ n)
    (c : IsCommitted start size n block new old j disk) where
  rounds_n : rounds (disk start 0) ≡ n
  rounds_n = ap rounds c.header.count ∙ count_rounds n w.small

  lg : Log
  lg = read_log start size (disk start)

  entries : (i : ℕ) → i < n → lg.block i ≡ block i
  unfolding lg
  entries i h =
      ap (λ m. read_loop m 0 (disk start) (λ k. 0) i) rounds_n
      ∙ (read_loop_lem n 0 (disk start) (λ k. 0) i).1 (omega arith) (omega arith)
      ∙ c.header.entries i h

  read-Trans : Trans start size n lg.block
  read-Trans = record {
    fits = w.fits;
    small = w.small;
    home = λ i h. subst (IsHome start size) (sym (entries i h)) (w.home i h);
  }

  booted-Placed :
      Placed start size n lg.block new disk read-Trans 0
        (record { disk = disk; buffers = disk; writes = [] })
  booted-Placed =
      let logged = λ (i : ℕ) (h : i < n). c.logged i h ∙ ap new (sym (entries i h)) in
      record {
        is_committed = record {
          header = record {
            count = c.header.count;
            entries = λ i h. c.header.entries i h ∙ sym (entries i h);
          };
          logged = logged;
          homes = λ b hb. refl;
        };
        cached = logged;
      }

  replaced :
      (b : ℕ) → IsHome start size b → installed n lg.block new disk b ≡ installed n block new old b
  replaced b hb =
      ap₂ (λ t v. if t then new b else v) (among-ext n block lg.block b entries) (c.homes b hb)
      ∙ installed_again n j block new old b hj

  pub recover_committed : (s' : LogState) × Recovered start size (installed n block new old) disk s'
  unfolding lg
  recover_committed =
      let st0 : Store = record { disk = disk; buffers = disk; writes = [] } in
      let (placed, tr) =
        install_loop-Placed lg n new disk read-Trans (λ f. Unit {0}) disk n 0 st0 (omega arith)
          (λ i f h k. tt) booted-Placed (record { replayed = refl; always = tt }) in
      ended start size (installed n block new old) disk (omega (arith, w.fits))
        (rw (rounds_n) (le→leb w.small))
        (λ b hb.
          ap {A = Store} {B = Block} (λ st. st.disk b)
            (ap {A = ℕ} {B = Store} (λ m. install_loop m 0 lg st0) rounds_n)
          ∙ placed.is_committed.homes b hb
          ∙ replaced b hb)
