-- ===== src/Sysfile/Balance.antt =====
-- dup() and close(): every file counts the descriptors that refer to it.
use fp_sisop20_b.Prelude.{
  ℕ, ◌+◌, ◌-◌, ◌%◌, ◌^◌, ◌<◌, ◌≡◌, ◌≢◌, refl, sym, ap, subst, ◌∙◌, ◌⊎◌, inl, inr, true, false, ◌||◌,
  none, some, ◌++◌, arith, leb, ◌==◌, ==_refl, ==_ne, ==→eq, ==→ne, Bool-cases, update,
}
use fp_sisop20_b.Run.{ok}
use fp_sisop20_b.Spinlock.Critical.{IsFree, dropped-IsFree}
use fp_sisop20_b.Proc.Alloc.{nofile}
use fp_sisop20_b.File.{File, FileState, below_one, set_ref, closed, filedup, fileclose}
use fp_sisop20_b.File.Refs.{with_file}
use fp_sisop20_b.File.Close.{given_back, filedup_run, fileclose_more, fileclose_last}
use fp_sisop20_b.Syscall.{argint}
use fp_sisop20_b.Sysfile.{SysState, Descriptor, argfd, fdalloc, sys_dup, sys_close}
use fp_sisop20_b.Sysfile.Count.{bit, count, count_set, count_least}
use fp_sisop20_b.Sysfile.Find.{IsOpen, InUse, argfd_lem, fdalloc_lem}

-- Each file counts the descriptors of the process that refer to it and `other` references.
pub record Counted {D : Type 0} (other : ℕ → ℕ) (s : SysState D) : Type 0 where
  pub refs : (f : ℕ) → 0 < f → (s.table.files f).ref ≡ count nofile s.ofile f + other f
  pub small : (f : ℕ) → (s.table.files f).ref + 1 < 2 ^ 31
  pub free : IsFree s.table.sync

module _ {D : Type 0} where
  -- The states after dup() and close().
  abbrev dupped : (fd f : ℕ) → SysState D → SysState D
  dupped fd f s = record s {
    ofile = update s.ofile fd f;
    table = with_file f (set_ref (((s.table.files f).ref + 1) % 2 ^ 32) (s.table.files f)) s.table;
  }

  dup_none : (s : SysState D) → argfd 0 s ≡ ok none s → sys_dup s ≡ ok none s
  unfolding sys_dup
  dup_none s e = rw e refl

  dup_full :
      (s : SysState D) (d : Descriptor)
      → argfd 0 s ≡ ok (some d) s
      → fdalloc d.file s ≡ ok none s
      → sys_dup s ≡ ok none s
  unfolding sys_dup
  dup_full s d e e' = rw (e, e') refl

  dup_run :
      (s : SysState D) (d : Descriptor) (fd : ℕ) (t : FileState D)
      → argfd 0 s ≡ ok (some d) s
      → fdalloc d.file s ≡ ok (some fd) (record s { ofile = update s.ofile fd d.file })
      → filedup d.file s.table ≡ ok d.file t
      → sys_dup s ≡ ok (some fd) (record s { ofile = update s.ofile fd d.file; table = t })
  unfolding sys_dup
  dup_run s d fd t e e' run = rw (e, e', run) refl

  close_none : (s : SysState D) → argfd 0 s ≡ ok none s → sys_close s ≡ ok none s
  unfolding sys_close
  close_none s e = rw e refl

  close_run :
      (s : SysState D) (d : Descriptor) (t : FileState D)
      → argfd 0 s ≡ ok (some d) s
      → fileclose d.file s.table ≡ ok tt t
      → sys_close s ≡ ok (some 0) (record s { ofile = update s.ofile d.fd 0; table = t })
  unfolding sys_close
  close_run s d t e run = rw (e, run) refl

  -- A file changes its count as its descriptors change.
  Counted-set :
      (other : ℕ → ℕ) (s : SysState D) (fd v f : ℕ) (q : File) (t : FileState D)
      → Counted other s
      → fd < nofile
      → f ≢ 0
      → t.files ≡ update s.table.files f q
      → IsFree t.sync
      → q.ref + 1 < 2 ^ 31
      → ((g : ℕ)
          → 0 < g
          → (update s.table.files f q g).ref + bit (s.ofile fd == g)
            ≡ (s.table.files g).ref + bit (v == g))
      → Counted other (record s { ofile = update s.ofile fd v; table = t })
  Counted-set other s fd v f q t c lt ne e free small change = record {
    refs = λ g pos.
        let a = c.refs g pos in
        let b = count_set nofile fd v g s.ofile lt in
        let d = change g pos in ap (λ (h : ℕ → File). (h g).ref) e ∙ omega (arith, a, b, d);
    small = λ g. ap_small g;
    free = free;
  }
    where
      ap_small : (g : ℕ) → (t.files g).ref + 1 < 2 ^ 31
      ap_small g = elim (Bool-cases (g == f)) [
        | inl is ↦ rw (e, is) small
        | inr other' ↦ rw (e, other') (c.small g)
      ]

in_use : (r k o : ℕ) → r ≡ k + o → 0 < k → r + 1 < 2 ^ 31 → below_one r ≡ false
in_use r k o e pos small =
    let ne : (r == 0) ≡ false = ==_ne (λ z. omega (arith, e, pos, z)) in
    let lt : leb (2 ^ 31) r ≡ false = ground (arith, small) in rw (ne, lt) refl

-- The last reference.
last_one : (r k o : ℕ) → below_one (r - 1) ≡ true → r ≡ k + o → 0 < k → r + 1 < 2 ^ 31 → 0 + 1 ≡ r
last_one r k o h e pos small = elim (Bool-cases (r - 1 == 0)) [
  | inl z ↦ let a = ==→eq (r - 1) 0 z in omega (arith, a, e, pos)
  | inr nz ↦
      let big : leb (2 ^ 31) (r - 1) ≡ true =
        subst (λ b. (b || leb (2 ^ 31) (r - 1)) ≡ true) nz h in
      absurd (ground (arith, big, small))
]

-- One reference more, for a descriptor that was not in use.
up_change :
    (files : ℕ → File) (f z g : ℕ) (q : File)
    → q.ref ≡ (files f).ref + 1
    → z ≡ 0
    → 0 < g
    → (update files f q g).ref + bit (z == g) ≡ (files g).ref + bit (f == g)
up_change files f z g q e z0 pos =
    let free : (z == g) ≡ false = ==_ne (λ h. omega (arith, z0, h, pos)) in
    elim (Bool-cases (g == f)) [
      | inl is ↦ rw (free, ==→eq g f is, ==_refl f) (omega (arith, e))
      | inr no_ ↦
          let ne : (f == g) ≡ false = ==_ne (λ h. ==→ne g f no_ (sym h)) in rw (free, no_, ne) refl
    ]

-- One reference less, for a descriptor that is given back.
down_change :
    (files : ℕ → File) (f g : ℕ) (q : File)
    → q.ref + 1 ≡ (files f).ref
    → 0 < g
    → (update files f q g).ref + bit (f == g) ≡ (files g).ref + bit (0 == g)
down_change files f g q e pos =
    let free : (0 == g) ≡ false = ==_ne (λ h. omega (arith, h, pos)) in
    elim (Bool-cases (g == f)) [
      | inl is ↦
          rw (==→eq g f is, ==_refl f, subst (λ k. (0 == k) ≡ false) (==→eq g f is) free)
            (omega (arith, e))
      | inr no_ ↦
          let ne : (f == g) ≡ false = ==_ne (λ h. ==→ne g f no_ (sym h)) in rw (free, no_, ne) refl
    ]

-- dup(), with the reference counts in balance and the lock free. It fails and changes nothing where its
-- argument is no descriptor of an open file, or all descriptors are in use. Otherwise it gives the first
-- descriptor that was not in use, which now refers to the same file; the counts balance again, and the lock
-- is free.
pub sys_dup_lem :
    {D : Type 0} (other : ℕ → ℕ) (s : SysState D)
    → Counted other s
    → ((f : ℕ) → (s.table.files f).ref + 2 < 2 ^ 31)
    → ((sys_dup s ≡ ok none s)
        × (((fd : ℕ) → IsOpen (argint 0 s.caller) s.ofile fd → ⊥) ⊎ InUse 0 nofile s))
      ⊎ ((old : ℕ) × (fd : ℕ) × (s' : SysState D) × (sys_dup s ≡ ok (some fd) s')
          × IsOpen (argint 0 s.caller) s.ofile old
          × (fd < nofile)
          × (s.ofile fd ≡ 0)
          × InUse 0 fd s
          × (s'.ofile ≡ update s.ofile fd (s.ofile old))
          × Counted other s')
sys_dup_lem other s c room = elim (argfd_lem 0 s) [
  | inl (bad, why) ↦ inl (dup_none s bad, inl why)
  | inr (old, run, (is, lt, ne)) ↦
      let f = s.ofile old in
      let d : Descriptor = record { fd = old; file = f } in
      elim (fdalloc_lem f s) [
        | inl (full, all) ↦ inl (dup_full s d run full, inr all)
        | inr (fd, took, lt', z, first) ↦
            let r = (s.table.files f).ref in
            let up = set_ref ((r + 1) % 2 ^ 32) (s.table.files f) in
            let t = with_file f up s.table in
            let least = count_least nofile old s.ofile lt in
            let held = c.refs f (omega (arith, ne)) in
            let small = room f in
            let good : below_one r ≡ false =
              in_use r (count nofile s.ofile f) (other f) held least (omega (arith, small)) in
            inr (
              old,
              fd,
              dupped fd f s,
              dup_run s d fd t run took (filedup_run f s.table c.free good),
              (is, lt, ne),
              lt',
              z,
              first,
              refl,
              Counted-set other s fd f f up t c lt' ne refl (dropped-IsFree s.table.sync c.free)
                  (omega (arith, small))
                  (λ g pos.
                    up_change s.table.files f (s.ofile fd) g up (omega (arith, small)) z pos),
            )
      ]
]

-- close(), with the reference counts in balance and the lock free. It fails and changes nothing where its
-- argument is no descriptor of an open file. Otherwise the descriptor is free again; the counts balance
-- again, and the lock is free.
pub sys_close_lem :
    {D : Type 0} (other : ℕ → ℕ) (s : SysState D)
    → Counted other s
    → ((sys_close s ≡ ok none s) × ((fd : ℕ) → IsOpen (argint 0 s.caller) s.ofile fd → ⊥))
      ⊎ ((fd : ℕ) × (s' : SysState D) × (sys_close s ≡ ok (some 0) s')
          × IsOpen (argint 0 s.caller) s.ofile fd
          × (s'.ofile ≡ update s.ofile fd 0)
          × Counted other s')
sys_close_lem other s c = elim (argfd_lem 0 s) [
  | inl (bad, why) ↦ inl (close_none s bad, why)
  | inr (fd, run, (is, lt, ne)) ↦
      let f = s.ofile fd in
      let q = s.table.files f in
      let d : Descriptor = record { fd = fd; file = f } in
      let least = count_least nofile fd s.ofile lt in
      let held = c.refs f (omega (arith, ne)) in
      let small = c.small f in
      let good : below_one q.ref ≡ false =
        in_use q.ref (count nofile s.ofile f) (other f) held least small in
      elim (Bool-cases (below_one (q.ref - 1))) [
        | inr more ↦
            let t = with_file f (set_ref (q.ref - 1) q) s.table in
            inr (
              fd,
              record s { ofile = update s.ofile fd 0; table = t },
              close_run s d t run (fileclose_more f s.table c.free good more),
              (is, lt, ne),
              refl,
              Counted-set other s fd 0 f (set_ref (q.ref - 1) q) t c lt ne refl
                  (dropped-IsFree s.table.sync c.free) (omega (arith, small))
                  (λ g pos.
                    down_change s.table.files f g (set_ref (q.ref - 1) q)
                      (omega (arith, held, least)) pos),
            )
        | inl last ↦
            let t = record (with_file f (closed q) s.table) {
              calls = given_back q ++ s.table.calls;
            } in
            inr (
              fd,
              record s { ofile = update s.ofile fd 0; table = t },
              close_run s d t run (fileclose_last f s.table c.free good last),
              (is, lt, ne),
              refl,
              Counted-set other s fd 0 f (closed q) t c lt ne refl
                  (dropped-IsFree s.table.sync c.free) (omega arith)
                  (λ g pos.
                    down_change s.table.files f g (closed q)
                      (last_one q.ref (count nofile s.ofile f) (other f) last held least small)
                      pos),
            )
      ]
]
