-- ===== src/Log/Ops.antt =====
-- log_write, begin_op and end_op.
use fp_sisop20_b.Prelude.{
  ℕ, zero, suc, ◌+◌, ◌-◌, ◌≤◌, ◌<◌, ◌≡◌, ◌≢◌, refl, sym, ap, ap₂, subst, ◌∙◌, ◌⊎◌, inl, inr, true,
  false, ◌||◌, arith, update, update_self, update_ne, ◌==◌, ==_ne, ==_refl, ==→eq, ==→ne, leb,
  Bool-cases, if◌then◌else◌,
}
use fp_sisop20_b.Run.{ok, panics}
use fp_sisop20_b.Log.{Log, LogState, logsize, absorb_loop, log_write}
use fp_sisop20_b.Log.Phases.{IsHome, among, Trans}
use fp_sisop20_b.Log.Recover.{among-ext}

-- Where the search of log_write ends.
absorb_loop_lem :
    (m i : ℕ) (block : ℕ → ℕ) (b : ℕ)
    → ((i ≤ absorb_loop m i block b)
        × (absorb_loop m i block b < i + m)
        × (block (absorb_loop m i block b) ≡ b))
      ⊎ ((absorb_loop m i block b ≡ i + m) × ((j : ℕ) → i ≤ j → j < i + m → block j ≢ b))
unfolding absorb_loop
absorb_loop_lem zero i block b = inr (omega arith, λ j lo hi e. omega arith)
absorb_loop_lem (suc m) i block b = elim (Bool-cases (block i == b)) [
  | inl is ↦ inl (rw is (omega arith), rw is (omega arith), rw is (==→eq (block i) b is))
  | inr ne ↦ rw ne (elim (absorb_loop_lem m (i + 1) block b) [
    | inl (lo, hi, e) ↦ inl (omega arith, omega arith, e)
    | inr (e, none) ↦ inr (
      omega arith,
      λ j lo hi. elim (Bool-cases (j == i)) [
        | inl at ↦ subst (λ k. block k ≢ b) (sym (==→eq j i at)) (==→ne (block i) b ne)
        | inr off ↦ none j (ground arith) (omega arith)
      ],
    )
  ])
]

among_at : (n i : ℕ) (block : ℕ → ℕ) → i < n → among n block (block i) ≡ true
among_at zero i block h = absurd (omega arith)
among_at (suc n) i block h = elim (Bool-cases (i == n)) [
  | inl is ↦ rw (==→eq i n is, ==_refl (block n)) refl
  | inr ne ↦ let rest = among_at n i block (ground arith) in ground arith
]

among_none :
    (n : ℕ) (block : ℕ → ℕ) (b : ℕ) → ((j : ℕ) → j < n → block j ≢ b) → among n block b ≡ false
among_none zero block b h = refl
among_none (suc n) block b h =
    let ne = h n (omega arith) in
    let rest = among_none n block b (λ j hj. h j (omega arith)) in ground arith

-- The log with block `b` recorded.
abbrev recorded : Log → ℕ → Log
recorded lg b =
    let i = absorb_loop lg.n 0 lg.block b in
    record lg { block = update lg.block i b; n = if i == lg.n then lg.n + 1 else lg.n }

-- The block stands in the log already.
absorbed :
    (n i : ℕ) (block : ℕ → ℕ) (b x : ℕ)
    → i < n
    → block i ≡ b
    → among n (update block i b) x ≡ ((x == b) || among n block x)
absorbed n i block b x h e =
    among-ext n block (update block i b) x (λ j hj. elim (Bool-cases (j == i)) [
      | inl is ↦ rw (==→eq j i is) (update_self block i b ∙ sym e)
      | inr ne ↦ update_ne block i b (==→ne j i ne)
    ])
    ∙ elim (Bool-cases (x == b)) [
      | inl is ↦
          rw is
            (subst (λ y. among n block y ≡ true) (e ∙ sym (==→eq x b is)) (among_at n i block h))
      | inr ne ↦ rw ne refl
    ]

-- It becomes the last one of the log.
appended :
    (n : ℕ) (block : ℕ → ℕ) (b x : ℕ)
    → among (suc n) (update block n b) x ≡ ((x == b) || among n block x)
appended n block b x =
    ap₂ (λ y r. (x == y) || r) (update_self block n b)
      (among-ext n block (update block n b) x (λ j hj. update_ne block n b (λ z. omega arith)))

-- What recording a block does to the log.
pub record Recorded (lg : Log) (b : ℕ) (lg' : Log) : Type 0 where
  pub members : (x : ℕ) → among lg'.n lg'.block x ≡ ((x == b) || among lg.n lg.block x)
  pub count : lg'.n ≡ (if among lg.n lg.block b then lg.n else lg.n + 1)
  pub homes :
      IsHome lg.start lg.size b
      → ((i : ℕ) → i < lg.n → IsHome lg.start lg.size (lg.block i))
      → (i : ℕ) → i < lg'.n
      → IsHome lg.start lg.size (lg'.block i)

put_home :
    (start size n i : ℕ) (block : ℕ → ℕ) (b : ℕ)
    → IsHome start size b
    → ((j : ℕ) → j < n → IsHome start size (block j))
    → (j : ℕ) → (j ≡ i) ⊎ (j < n)
    → IsHome start size (update block i b j)
put_home start size n i block b hb old j at = elim (Bool-cases (j == i)) [
  | inl is ↦
      subst (IsHome start size) (sym (ap (update block i b) (==→eq j i is) ∙ update_self block i b))
        hb
  | inr ne ↦
      subst (IsHome start size) (sym (update_ne block i b (==→ne j i ne)))
        (old j (elim at [ inl e ↦ absurd (==→ne j i ne e) | inr h ↦ h ]))
]

recorded-Recorded : (lg : Log) (b : ℕ) → Recorded lg b (recorded lg b)
recorded-Recorded lg b = elim (absorb_loop_lem lg.n 0 lg.block b) [
  | inl (lo, hi, e) ↦
      let i = absorb_loop lg.n 0 lg.block b in
      let h : i < lg.n = omega arith in
      let ne : (i == lg.n) ≡ false = ==_ne (λ z. omega arith) in
      let on : among lg.n lg.block b ≡ true =
        subst (λ y. among lg.n lg.block y ≡ true) e (among_at lg.n i lg.block h) in
      record {
        members = λ x. rw ne (absorbed lg.n i lg.block b x h e);
        count = rw (ne, on) refl;
        homes =
            λ hb old j hj. put_home lg.start lg.size lg.n i lg.block b hb old j (inr (rw ne at hj));
      }
  | inr (e, none) ↦
      let i = absorb_loop lg.n 0 lg.block b in
      let at : i ≡ lg.n = omega arith in
      let is : (i == lg.n) ≡ true = rw at (==_refl lg.n) in
      let off = among_none lg.n lg.block b (λ j hj. none j (omega arith) (omega arith)) in
      let one : lg.n + 1 ≡ suc lg.n = omega arith in
      record {
        members = λ x.
            rw is
              (ap₂ (λ m k. among m (update lg.block k b) x) one at ∙ appended lg.n lg.block b x);
        count = rw (is, off) refl;
        homes = λ hb old j hj.
            let hj' : j < lg.n + 1 = rw is at hj in
            put_home lg.start lg.size lg.n i lg.block b hb old j (last j lg.n i at hj');
      }
]
  where
    last : (j n i : ℕ) → i ≡ n → j < n + 1 → (j ≡ i) ⊎ (j < n)
    last j n i at h = elim (Bool-cases (j == n)) [
      | inl is ↦ inl (ground arith)
      | inr ne ↦ inr (ground arith)
    ]

-- What a successful log_write leaves.
pub record Logged (s : LogState) (b : ℕ) (s' : LogState) : Type 0 where
  pub open_op : s.log.outstanding ≢ 0
  pub room : (s.log.n < logsize) × (s.log.n < s.log.size - 1)
  pub recording : Recorded s.log b s'.log
  pub bound : s'.log.n ≤ logsize
  pub transaction :
      IsHome s.log.start s.log.size b
      → Trans s.log.start s.log.size s.log.n s.log.block
      → Trans s'.log.start s'.log.size s'.log.n s'.log.block
  pub store : s'.store ≡ s.store

log_write_run :
    (s : LogState) (b : ℕ)
    → (leb logsize s.log.n || leb (s.log.size - 1) s.log.n) ≡ false
    → (s.log.outstanding == 0) ≡ false
    → log_write b s ≡ ok tt (record s { log = recorded s.log b })
unfolding log_write
log_write_run s b h h' = rw (h, h') refl

log_write_full :
    (s : LogState) (b : ℕ)
    → (leb logsize s.log.n || leb (s.log.size - 1) s.log.n) ≡ true
    → log_write b s ≡ panics "too big a transaction"
unfolding log_write
log_write_full s b h = rw h refl

log_write_closed :
    (s : LogState) (b : ℕ)
    → (leb logsize s.log.n || leb (s.log.size - 1) s.log.n) ≡ false
    → (s.log.outstanding == 0) ≡ true
    → log_write b s ≡ panics "log_write outside of trans"
unfolding log_write
log_write_closed s b h h' = rw (h, h') refl

count-le :
    (n b : ℕ) (block : ℕ → ℕ) (m : ℕ) → m ≡ (if among n block b then n else n + 1) → m ≤ n + 1
count-le n b block m e = ground arith

-- log_write panics where the log is full, and outside of an operation. Otherwise, with room in the log
-- and an operation open, it records the block: the log then holds exactly the blocks of before and this one, with no new entry for a block
-- that it held, and still fits into its place and the header.
pub log_write_lem :
    (s : LogState) (b : ℕ)
    → (((logsize ≤ s.log.n) ⊎ (s.log.size - 1 ≤ s.log.n))
        × (log_write b s ≡ panics "too big a transaction"))
      ⊎ ((s.log.outstanding ≡ 0) × (log_write b s ≡ panics "log_write outside of trans"))
      ⊎ ((s' : LogState) × (log_write b s ≡ ok tt s') × Logged s b s')
log_write_lem s b = elim (Bool-cases (leb logsize s.log.n || leb (s.log.size - 1) s.log.n)) [
  | inl full ↦ inl (too_big s.log.n s.log.size full, log_write_full s b full)
  | inr room ↦ elim (Bool-cases (s.log.outstanding == 0)) [
    | inl closed ↦ inr (inl (==→eq s.log.outstanding 0 closed, log_write_closed s b room closed))
    | inr open_ ↦
        let r = recorded-Recorded s.log b in
        let grown = count-le s.log.n b s.log.block _ r.count in
        inr (
          inr (
            record s { log = recorded s.log b },
            log_write_run s b room open_,
            record {
              open_op = ==→ne s.log.outstanding 0 open_;
              room = has_room s.log.n s.log.size room;
              recording = r;
              bound = fits_log s.log.n s.log.size _ room grown;
              transaction = λ hb w. record {
                fits = fits_place s.log.n s.log.size _ room grown;
                small = fits_log s.log.n s.log.size _ room grown;
                home = r.homes hb w.home;
              };
              store = refl;
            },
          ))
  ]
]
  where
    too_big :
        (n size : ℕ) → (leb logsize n || leb (size - 1) n) ≡ true → (logsize ≤ n) ⊎ (size - 1 ≤ n)
    too_big n size h = elim (Bool-cases (leb logsize n)) [
      | inl a ↦ inl (ground arith)
      | inr a ↦ inr (ground arith)
    ]

    has_room :
        (n size : ℕ) → (leb logsize n || leb (size - 1) n) ≡ false → (n < logsize) × (n < size - 1)
    has_room n size h = (ground arith, ground arith)

    fits_log :
        (n size m : ℕ) → (leb logsize n || leb (size - 1) n) ≡ false → m ≤ n + 1 → m ≤ logsize
    fits_log n size m h g = ground arith

    fits_place : (n size m : ℕ) → (leb logsize n || leb (size - 1) n) ≡ false → m ≤ n + 1 → m < size
    fits_place n size m h g = ground arith
