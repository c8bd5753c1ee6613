-- ===== src/Pipe/Receive.antt =====
-- pipewrite and piperead as wholes.
use fp_sisop20_b.Prelude.{
  ◌≢◌, ℕ, zero, suc, ◌%◌, ◌≤◌, ◌≡◌, refl, sym, ap, subst, ◌∙◌, ◌⊎◌, inl, inr, Bool, true, false,
  ◌&&◌, List, [], ◌∷◌, ◌++◌, arith, length, ==→eq, Bool-cases, if◌then◌else◌,
}
use fp_sisop20_b.Run.{ok}
use fp_sisop20_b.Spinlock.{Sync}
use fp_sisop20_b.Spinlock.Critical.{IsFree, taken, dropped, acquire-taken, release-dropped}
use fp_sisop20_b.Pipe.{
  Pipe, pipesize, PipeState, wake_readers, wake_writers, is_empty, advance, Written, done, dead,
  asleep, write_loop, write_end, pipewrite, got, killed_read, asleep_read, read_loop, read_locked,
  piperead,
}
use fp_sisop20_b.Pipe.Ring.{
  size, contents, IsValid, is_empty_lem, advance-IsValid, contents-advance,
}
use fp_sisop20_b.Pipe.Transfer.{chunk, Stopped, write_loop_lem}

-- What the copying loop of piperead takes out.
pub record Took (n : ℕ) (s : PipeState) (bs : List ℕ) (s' : PipeState) : Type 0 where
  pub run : read_loop n s ≡ ok bs s'
  pub queue : contents s.pipe ≡ bs ++ contents s'.pipe
  pub bound : length bs ≤ n
  pub why : (length bs ≡ n) ⊎ (contents s'.pipe ≡ [])
  pub valid : IsValid s'.pipe
  pub sync : s'.sync ≡ s.sync
  pub calls : s'.calls ≡ s.calls

take_run :
    (n : ℕ) (s s' : PipeState) (bs : List ℕ)
    → is_empty s.pipe ≡ false
    → read_loop n (record s { pipe = advance s.pipe }) ≡ ok bs s'
    → read_loop (suc n) s ≡ ok (s.pipe.bytes (s.pipe.nread % pipesize) ∷ bs) s'
unfolding read_loop
take_run n s s' bs some_ run = rw (some_, run) refl

none_run : (n : ℕ) (s : PipeState) → is_empty s.pipe ≡ true → read_loop (suc n) s ≡ ok [] s
unfolding read_loop
none_run n s none = rw none refl

zero_run : (s : PipeState) → read_loop 0 s ≡ ok [] s
unfolding read_loop
zero_run s = refl

contents_empty : (p : Pipe) → IsValid p → is_empty p ≡ true → contents p ≡ []
contents_empty p v e =
    let z : size p ≡ 0 = ==→eq (size p) 0 (sym (is_empty_lem p v) ∙ e) in rw z refl

pub read_loop_lem :
    (n : ℕ) (s : PipeState) → IsValid s.pipe → (bs : List ℕ) × (s' : PipeState) × Took n s bs s'
read_loop_lem zero s v = (
  [],
  s,
  record {
    run = zero_run s;
    queue = refl;
    bound = omega arith;
    why = inl refl;
    valid = v;
    sync = refl;
    calls = refl;
  },
)
read_loop_lem (suc n) s v = elim (Bool-cases (is_empty s.pipe)) [
  | inl none ↦ (
    [],
    s,
    record {
      run = none_run n s none;
      queue = refl;
      bound = omega arith;
      why = inr (contents_empty s.pipe v none);
      valid = v;
      sync = refl;
      calls = refl;
    },
  )
  | inr some_ ↦
      let t = record s { pipe = advance s.pipe } in
      let b = s.pipe.bytes (s.pipe.nread % pipesize) in
      let (bs, s', w) = read_loop_lem n t (advance-IsValid s.pipe v some_) in
      (
        b ∷ bs,
        s',
        record {
          run = take_run n s s' bs some_ w.run;
          queue = contents-advance s.pipe v some_ ∙ ap (λ xs. b ∷ xs) w.queue;
          bound = omega (arith, w.bound);
          why = elim w.why [ inl e ↦ inl (ap suc e) | inr e ↦ inr e ];
          valid = w.valid;
          sync = w.sync;
          calls = w.calls;
        },
      )
]

-- The lock after pipewrite: given back, unless the process goes to sleep with it.
abbrev pub lock_after : Written → Sync → Sync
lock_after done y = dropped y
lock_after dead y = dropped y
lock_after (asleep i) y = taken y

write_run :
    (s s' : PipeState) (addr : ℕ → ℕ) (n : ℕ) (killed : Bool) (r : Written)
    → IsFree s.sync
    → write_loop n 0 addr killed (record s { sync = taken s.sync }) ≡ ok r s'
    → s'.sync ≡ taken s.sync
    → (s'' : PipeState) × (pipewrite addr n killed s ≡ ok r s'')
      × (s''.pipe ≡ s'.pipe)
      × (s''.sync ≡ lock_after r s.sync)
unfolding pipewrite write_end
write_run s s' addr n killed done f run e = (
  record s' { sync = dropped s.sync; calls = wake_readers ∷ s'.calls },
  rw (acquire-taken s.sync f.unlocked, run, e, release-dropped s.sync f) refl,
  refl,
  refl,
)
write_run s s' addr n killed dead f run e = (
  record s' { sync = dropped s.sync },
  rw (acquire-taken s.sync f.unlocked, run, e, release-dropped s.sync f) refl,
  refl,
  refl,
)
write_run s s' addr n killed (asleep i) f run e =
    (s', rw (acquire-taken s.sync f.unlocked, run) refl, refl, e)

-- What pipewrite does to the queue of a pipe.
pub record Queued (addr : ℕ → ℕ) (n : ℕ) (killed : Bool) (s : PipeState) (r : Written)
    (s' : PipeState) : Type 0 where
  pub run : pipewrite addr n killed s ≡ ok r s'
  pub count : ℕ
  pub bound : count ≤ n
  pub queue : contents s'.pipe ≡ contents s.pipe ++ chunk addr 0 count
  pub valid : IsValid s'.pipe
  pub why : Stopped s'.pipe 0 n count killed r
  pub lock : s'.sync ≡ lock_after r s.sync
  pub ends : (s'.pipe.readopen ≡ s.pipe.readopen) × (s'.pipe.writeopen ≡ s.pipe.writeopen)

-- pipewrite appends its bytes, in order, behind those in the pipe, and stops early only where the
-- pipe holds 512: it then returns -1 if the reading end is closed or the process killed, and goes to
-- sleep before the next byte if not. It gives the lock back unless it sleeps.
pub pipewrite_lem :
    (addr : ℕ → ℕ) (n : ℕ) (killed : Bool) (s : PipeState)
    → IsValid s.pipe
    → IsFree s.sync
    → (r : Written) × (s' : PipeState) × Queued addr n killed s r s'
pipewrite_lem addr n killed s v f =
    let (r, s1, w) = write_loop_lem n 0 addr killed (record s { sync = taken s.sync }) v in
    let (s', run, same, lock) = write_run s s1 addr n killed r f w.run w.sync in
    (
      r,
      s',
      record {
        run = run;
        count = w.count;
        bound = w.bound;
        queue = ap contents same ∙ w.queue;
        valid = subst IsValid (sym same) w.valid;
        why = subst (λ p. Stopped p 0 n w.count killed r) (sym same) w.why;
        lock = lock;
        ends = (
          ap {A = Pipe} {B = Bool} (λ p. p.readopen) same ∙ w.readopen,
          ap {A = Pipe} {B = Bool} (λ p. p.writeopen) same ∙ w.writeopen,
        );
      },
    )

-- The two ways in which piperead finds nothing to do, and the one in which it reads.
starve_run :
    (n : ℕ) (killed : Bool) (s : PipeState)
    → IsFree s.sync
    → (is_empty s.pipe && s.pipe.writeopen) ≡ true
    → piperead n killed s ≡ (
        if killed
        then ok killed_read (record s { sync = dropped s.sync })
        else ok asleep_read (record s { sync = taken s.sync }))
unfolding piperead read_locked
starve_run n true s f e = rw (acquire-taken s.sync f.unlocked, e, release-dropped s.sync f) refl
starve_run n false s f e = rw (acquire-taken s.sync f.unlocked, e) refl

read_run :
    (n : ℕ) (killed : Bool) (s s' : PipeState) (bs : List ℕ)
    → IsFree s.sync
    → (is_empty s.pipe && s.pipe.writeopen) ≡ false
    → read_loop n (record s { sync = taken s.sync }) ≡ ok bs s'
    → s'.sync ≡ taken s.sync
    → piperead n killed s
      ≡ ok (got bs) (record s' { sync = dropped s.sync; calls = wake_writers ∷ s'.calls })
unfolding piperead read_locked
read_run n killed s s' bs f e run lock =
    rw (acquire-taken s.sync f.unlocked, e, run, lock, release-dropped s.sync f) refl

pub record Dequeued (n : ℕ) (killed : Bool) (s : PipeState) (bs : List ℕ) (s' : PipeState)
    : Type 0 where
  pub run : piperead n killed s ≡ ok (got bs) s'
  pub served : (contents s.pipe ≢ []) ⊎ (s.pipe.writeopen ≡ false)
  pub queue : contents s.pipe ≡ bs ++ contents s'.pipe
  pub bound : length bs ≤ n
  pub why : (length bs ≡ n) ⊎ (contents s'.pipe ≡ [])
  pub valid : IsValid s'.pipe
  pub lock : s'.sync ≡ dropped s.sync

serves :
    (p : Pipe)
    → IsValid p
    → (is_empty p && p.writeopen) ≡ false
    → (contents p ≢ []) ⊎ (p.writeopen ≡ false)
serves p v e = elim (Bool-cases (is_empty p)) [
  | inl none ↦ inr (ground arith)
  | inr some_ ↦
      inl (λ z. let n = ap length (sym (contents-advance p v some_) ∙ z) in omega (arith, n))
]

-- piperead on an empty pipe that can still be written returns -1 for a killed process and sleeps
-- for another, and changes no byte. Otherwise, on a pipe that holds bytes or whose writing end is closed,
-- it takes the oldest bytes out, in order: as many as
-- asked for, or all there are. It gives the lock back unless it sleeps.
pub piperead_lem :
    (n : ℕ) (killed : Bool) (s : PipeState)
    → IsValid s.pipe
    → IsFree s.sync
    → ((contents s.pipe ≡ [])
        × (s.pipe.writeopen ≡ true)
        × (piperead n killed s ≡ (
            if killed
            then ok killed_read (record s { sync = dropped s.sync })
            else ok asleep_read (record s { sync = taken s.sync }))))
      ⊎ ((bs : List ℕ) × (s' : PipeState) × Dequeued n killed s bs s')
piperead_lem n killed s v f = elim (Bool-cases (is_empty s.pipe && s.pipe.writeopen)) [
  | inl e ↦
      let none : is_empty s.pipe ≡ true = ground arith in
      inl (contents_empty s.pipe v none, ground arith, starve_run n killed s f e)
  | inr e ↦
      let (bs, s1, w) = read_loop_lem n (record s { sync = taken s.sync }) v in
      inr (
        bs,
        record s1 { sync = dropped s.sync; calls = wake_writers ∷ s1.calls },
        record {
          run = read_run n killed s s1 bs f e w.run w.sync;
          served = serves s.pipe v e;
          queue = w.queue;
          bound = w.bound;
          why = w.why;
          valid = w.valid;
          lock = refl;
        },
      )
]
