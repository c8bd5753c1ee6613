-- ===== src/Proc/Exit/Given.antt =====
-- What exit() has given back when it takes the lock.
use fp_sisop20_b.Prelude.{
  ℕ, zero, suc, ◌+◌, ◌≤◌, ◌<◌, ◌≡◌, ◌≢◌, refl, sym, ap, ◌∙◌, inl, inr, List, [], ◌++◌, false, arith,
  ◌==◌, ==→eq, ==→ne, ==_ne, Bool-cases, update, subst,
}
use fp_sisop20_b.Run.{ok}
use fp_sisop20_b.Proc.{begin_op, end_op, Proc, Event, fileclose, iput, State}
use fp_sisop20_b.Proc.Steps.{put_self}
use fp_sisop20_b.Proc.Alloc.{nofile, set_file}
use fp_sisop20_b.Proc.Exit.{Outside, close_loop, drop_cwd}
use fp_sisop20_b.Proc.Exit.Close.{
  Runs, OnTrace, mine, Later, IsOutside, OnTrace-left, OnTrace-right, Later-then, changed,
  changed-Later,
}

-- After `n` rounds from `fd` on: those descriptors are empty, the others as before, and each file that was
-- open there has been given to fileclose().
pub record Closed (n fd : ℕ) (s s' : State) : Type 0 where
  pub events : List Event
  pub later : Later events s s'
  pub empty : (i : ℕ) → fd ≤ i → i < fd + n → (mine s').ofile i ≡ 0
  pub others : (i : ℕ) → i < fd → (mine s').ofile i ≡ (mine s).ofile i
  pub cwd : (mine s').cwd ≡ (mine s).cwd
  pub given :
      (i : ℕ)
      → fd ≤ i
      → i < fd + n
      → (mine s).ofile i ≢ 0
      → OnTrace (fileclose ((mine s).ofile i)) events

module _ (o : Outside) (law : IsOutside o) where
  skip_run :
      (n fd : ℕ) (s : State)
      → (mine s).ofile fd ≡ 0
      → close_loop o (suc n) fd s.current s ≡ close_loop o n (fd + 1) s.current s
  unfolding close_loop
  skip_run n fd s e = rw e refl

  close_run :
      (n fd : ℕ) (s t : State)
      → (mine s).ofile fd ≢ 0
      → o.fileclose ((mine s).ofile fd) s ≡ ok tt t
      → t.current ≡ s.current
      → close_loop o (suc n) fd s.current s
        ≡ close_loop o n (fd + 1) s.current (changed (set_file fd 0) t)
  unfolding close_loop
  close_run n fd s t ne run same = rw (==_ne ne, run, same) refl

  close_zero : (fd p : ℕ) (s : State) → close_loop o 0 fd p s ≡ ok tt s
  unfolding close_loop
  close_zero fd p s = refl

  set_file-same :
      (fd : ℕ) (q : Proc)
      → ((set_file fd 0 q).state ≡ q.state)
        × ((set_file fd 0 q).priority ≡ q.priority)
        × ((set_file fd 0 q).cwd ≡ q.cwd)
        × ((set_file fd 0 q).ofile ≡ update q.ofile fd 0)
  unfolding set_file
  set_file-same fd q = (refl, refl, refl, refl)

  -- One round.
  record One (fd : ℕ) (s s' : State) : Type 0 where
    events : List Event
    later : Later events s s'
    run : (n : ℕ) → close_loop o (suc n) fd s.current s ≡ close_loop o n (fd + 1) s'.current s'
    files : (i : ℕ) → (mine s').ofile i ≡ update (mine s).ofile fd 0 i
    cwd : (mine s').cwd ≡ (mine s).cwd
    given : (mine s).ofile fd ≢ 0 → OnTrace (fileclose ((mine s).ofile fd)) events

  stay : (s : State) → Runs s → Later [] s s
  stay s r = record { current = refl; initproc = refl; trace = refl; runs = r }

  one_lem : (fd : ℕ) (s : State) → Runs s → (s' : State) × One fd s s'
  one_lem fd s r = elim (Bool-cases ((mine s).ofile fd == 0)) [
    | inl none ↦
        let e = ==→eq ((mine s).ofile fd) 0 none in
        (
          s,
          record {
            events = [];
            later = stay s r;
            run = λ n. skip_run n fd s e;
            files = λ i. same e i;
            cwd = refl;
            given = λ ne. absurd (ne e);
          },
        )
    | inr open_ ↦
        let ne = ==→ne ((mine s).ofile fd) 0 open_ in
        let f = (mine s).ofile fd in
        let (t, run, c) = law.closes f s r in
        let (st, pr, dir, fs) = set_file-same fd (mine t) in
        let self = put_self t.procs t.current (set_file fd 0 (mine t)) in
        (
          changed (set_file fd 0) t,
          record {
            events = c.events;
            later = Later-then c.later (changed-Later (set_file fd 0) t st pr c.later.runs);
            run = λ n.
                close_run n fd s t ne run c.later.current
                ∙ ap (λ p. close_loop o n (fd + 1) p (changed (set_file fd 0) t))
                    (sym c.later.current);
            files = λ i. ap (λ (q : Proc). q.ofile i) self ∙ ap (λ g. g i) fs ∙ both c.files i;
            cwd = ap (λ (q : Proc). q.cwd) self ∙ dir ∙ c.cwd;
            given = λ _. c.on;
          },
        )
  ]
    where
      same : (mine s).ofile fd ≡ 0 → (i : ℕ) → (mine s).ofile i ≡ update (mine s).ofile fd 0 i
      same e i = elim (Bool-cases (i == fd)) [
        | inl is ↦ rw is (ap (mine s).ofile (==→eq i fd is) ∙ e)
        | inr ne ↦ rw ne refl
      ]

      both : {g h : ℕ → ℕ} → ((i : ℕ) → g i ≡ h i) → (i : ℕ) → update g fd 0 i ≡ update h fd 0 i
      both e i = elim (Bool-cases (i == fd)) [ inl is ↦ rw is refl | inr ne ↦ rw ne (e i) ]

  pub close_lem :
      (n fd : ℕ) (s : State)
      → Runs s
      → (s' : State) × (close_loop o n fd s.current s ≡ ok tt s') × Closed n fd s s'
  close_lem zero fd s r = (
    s,
    close_zero fd s.current s,
    record {
      events = [];
      later = stay s r;
      empty = λ i lo hi. absurd (omega (arith, lo, hi));
      others = λ i lo. refl;
      cwd = refl;
      given = λ i lo hi ne. absurd (omega (arith, lo, hi));
    },
  )
  close_lem (suc n) fd s r =
      let (t, one) = one_lem fd s r in
      let (u, run, c) = close_lem n (fd + 1) t one.later.runs in
      (
        u,
        one.run n ∙ run,
        record {
          events = c.events ++ one.events;
          later = Later-then one.later c.later;
          empty = λ i lo hi. elim (Bool-cases (i == fd)) [
            | inl is ↦ c.others i (omega (arith, ==→eq i fd is)) ∙ one.files i ∙ rw is refl
            | inr ne ↦ c.empty i (past i lo ne) (omega (arith, hi))
          ];
          others = λ i lo.
              let ne : i ≢ fd = λ z. omega (arith, z, lo) in
              c.others i (omega (arith, lo)) ∙ one.files i ∙ rw (==_ne ne) refl;
          cwd = c.cwd ∙ one.cwd;
          given = λ i lo hi ne. elim (Bool-cases (i == fd)) [
            | inl is ↦ OnTrace-right _ c.events one.events (here i (==→eq i fd is) one ne)
            | inr other ↦
                let at = one.files i ∙ rw other refl in
                OnTrace-left _ c.events one.events (
                  subst (λ f. OnTrace (fileclose f) c.events) at
                    (c.given i (past i lo other) (omega (arith, hi)) (λ z. ne (sym at ∙ z))))
          ];
        },
      )
    where
      past : (i : ℕ) → fd ≤ i → (i == fd) ≡ false → fd + 1 ≤ i
      past i lo ne = ground arith

      here :
          {t : State} (i : ℕ)
          → i ≡ fd
          → (one : One fd s t) → (mine s).ofile i ≢ 0
          → OnTrace (fileclose ((mine s).ofile i)) one.events
      here i e one ne =
          subst (λ j. OnTrace (fileclose ((mine s).ofile j)) one.events) (sym e)
            (one.given (λ z. ne (ap (mine s).ofile e ∙ z)))

-- The state in which exit() takes the lock: the process runs, with no open file and no directory, and each
-- file and the directory of before has been given back, the directory in a transaction of the log.
pub record Emptied (s m : State) : Type 0 where
  pub events : List Event
  pub later : Later events s m
  pub no_file : (i : ℕ) → i < nofile → (mine m).ofile i ≡ 0
  pub no_directory : (mine m).cwd ≡ 0
  pub files_given :
      (i : ℕ) → i < nofile → (mine s).ofile i ≢ 0 → OnTrace (fileclose ((mine s).ofile i)) events
  pub directory_given : OnTrace (iput (mine s).cwd) events
  pub transaction : OnTrace begin_op events × OnTrace end_op events

drop_cwd-same :
    (q : Proc)
    → ((drop_cwd q).state ≡ q.state)
      × ((drop_cwd q).priority ≡ q.priority)
      × ((drop_cwd q).cwd ≡ 0)
      × ((drop_cwd q).ofile ≡ q.ofile)
unfolding drop_cwd
drop_cwd-same q = (refl, refl, refl, refl)

-- The calls in order, from `s` to `s4`.
pub record Stripped (o : Outside) (s s4 : State) : Type 0 where
  pub s1 : State
  pub s2 : State
  pub s3 : State
  pub closes : close_loop o nofile 0 s.current s ≡ ok tt s1
  pub begins : o.begin_op s1 ≡ ok tt s2
  pub puts : o.iput (s2.procs s.current).cwd s2 ≡ ok tt s3
  pub ends : o.end_op s3 ≡ ok tt s4
  pub same : s4.current ≡ s.current

pub stripped_lem :
    (o : Outside) (s : State)
    → IsOutside o
    → Runs s
    → (s4 : State) × Stripped o s s4 × Emptied s (changed drop_cwd s4)
stripped_lem o s law r =
    let (s1, run, c) = close_lem o law nofile 0 s r in
    let (s2, run2, b) = law.begins s1 c.later.runs in
    let dir = (mine s2).cwd in
    let (s3, run3, p) = law.puts dir s2 b.later.runs in
    let (s4, run4, e) = law.ends s3 p.later.runs in
    let (st, pr, no_dir, fs) = drop_cwd-same (mine s4) in
    let self = put_self s4.procs s4.current (drop_cwd (mine s4)) in
    let to2 = Later-then c.later b.later in
    let to4 = Later-then to2 (Later-then p.later e.later) in
    (
      s4,
      record {
        s1 = s1;
        s2 = s2;
        s3 = s3;
        closes = run;
        begins = run2;
        puts = subst (λ c. o.iput (s2.procs c).cwd s2 ≡ ok tt s3) to2.current run3;
        ends = run4;
        same = to4.current;
      },
      record {
        events = (e.events ++ p.events) ++ (b.events ++ c.events);
        later = Later-then to4 (changed-Later drop_cwd s4 st pr e.later.runs);
        no_file = λ i small.
            ap (λ (q : Proc). q.ofile i) self
            ∙ ap (λ g. g i) fs
            ∙ e.files i
            ∙ p.files i
            ∙ b.files i
            ∙ c.empty i (omega arith) (omega (arith, small));
        no_directory = ap (λ (q : Proc). q.cwd) self ∙ no_dir;
        files_given = λ i small ne.
            OnTrace-right _ (e.events ++ p.events) (b.events ++ c.events) (
              OnTrace-right _ b.events c.events
                (c.given i (omega arith) (omega (arith, small)) ne));
        transaction = (
          OnTrace-right _ (e.events ++ p.events) (b.events ++ c.events)
              (OnTrace-left _ b.events c.events b.on),
          OnTrace-left _ (e.events ++ p.events) (b.events ++ c.events)
              (OnTrace-left _ e.events p.events e.on),
        );
        directory_given = OnTrace-left _ (e.events ++ p.events) (b.events ++ c.events) (
            OnTrace-right _ e.events p.events
              (subst (λ d. OnTrace (iput d) p.events) (b.cwd ∙ c.cwd) p.on));
      },
    )
