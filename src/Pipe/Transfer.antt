-- ===== src/Pipe/Transfer.antt =====
-- The loops of pipewrite and piperead move bytes through the queue in order.
use fp_sisop20_b.Prelude.{
  ℕ, zero, suc, ◌+◌, ◌≤◌, ◌<◌, ◌≡◌, refl, sym, ap, ◌∙◌, inl, inr, Bool, true, false, not, ◌||◌,
  List, [], ◌∷◌, ◌++◌, arith, append-nil, length, ==→eq, Bool-cases,
}
use fp_sisop20_b.Run.{ok}
use fp_sisop20_b.StateList.Keep.{snoc-append}
use fp_sisop20_b.Pipe.{
  Pipe, pipesize, PipeState, wake_readers, is_full, put, Written, done, dead, asleep, write_loop,
}
use fp_sisop20_b.Pipe.Ring.{
  size, contents, IsValid, length-window, is_full_lem, put-IsValid, contents-put,
}

-- `n` bytes at `addr + i`.
abbrev pub chunk : (ℕ → ℕ) → (i n : ℕ) → List ℕ
chunk addr i zero = []
chunk addr i (suc n) = addr i ∷ chunk addr (i + 1) n

-- Why the writing loop stopped after `k` of `m` bytes.
pub data Stopped (p : Pipe) (i m k : ℕ) (killed : Bool) (r : Written) : Type 0 where
  all : k ≡ m → r ≡ done → Stopped p i m k killed r
  no_reader :
      k < m
      → length (contents p) ≡ pipesize
      → (not p.readopen || killed) ≡ true
      → r ≡ dead
      → Stopped p i m k killed r
  full :
      k < m
      → length (contents p) ≡ pipesize
      → p.readopen ≡ true
      → killed ≡ false
      → r ≡ asleep (i + k)
      → Stopped p i m k killed r

pub record Wrote (m i : ℕ) (addr : ℕ → ℕ) (killed : Bool) (s : PipeState) (r : Written)
    (s' : PipeState) : Type 0 where
  pub run : write_loop m i addr killed s ≡ ok r s'
  pub count : ℕ
  pub bound : count ≤ m
  pub queue : contents s'.pipe ≡ contents s.pipe ++ chunk addr i count
  pub valid : IsValid s'.pipe
  pub why : Stopped s'.pipe i m count killed r
  pub sync : s'.sync ≡ s.sync
  pub writeopen : s'.pipe.writeopen ≡ s.pipe.writeopen
  pub readopen : s'.pipe.readopen ≡ s.pipe.readopen

length-contents : (p : Pipe) → length (contents p) ≡ size p
length-contents p = length-window p.bytes p.nread (size p)

full_length : (p : Pipe) → IsValid p → is_full p ≡ true → length (contents p) ≡ pipesize
full_length p v f = length-contents p ∙ ==→eq (size p) pipesize (sym (is_full_lem p v) ∙ f)

abbrev putting : ℕ → PipeState → PipeState
putting b s = record s { pipe = put b s.pipe }

put_run :
    (m i : ℕ) (addr : ℕ → ℕ) (killed : Bool) (s : PipeState)
    → is_full s.pipe ≡ false
    → write_loop (suc m) i addr killed s ≡ write_loop m (i + 1) addr killed (putting (addr i) s)
unfolding write_loop
put_run m i addr killed s room = rw room refl

dead_run :
    (m i : ℕ) (addr : ℕ → ℕ) (killed : Bool) (s : PipeState)
    → is_full s.pipe ≡ true
    → (not s.pipe.readopen || killed) ≡ true
    → write_loop (suc m) i addr killed s ≡ ok dead s
unfolding write_loop
dead_run m i addr killed s f d = rw (f, d) refl

sleep_run :
    (m i : ℕ) (addr : ℕ → ℕ) (killed : Bool) (s : PipeState)
    → is_full s.pipe ≡ true
    → (not s.pipe.readopen || killed) ≡ false
    → write_loop (suc m) i addr killed s
      ≡ ok (asleep i) (record s { calls = wake_readers ∷ s.calls })
unfolding write_loop
sleep_run m i addr killed s f d = rw (f, d) refl

zero_run :
    (i : ℕ) (addr : ℕ → ℕ) (killed : Bool) (s : PipeState)
    → write_loop 0 i addr killed s ≡ ok done s
unfolding write_loop
zero_run i addr killed s = refl

put-flags :
    (b : ℕ) (p : Pipe) → ((put b p).writeopen ≡ p.writeopen) × ((put b p).readopen ≡ p.readopen)
unfolding put
put-flags b p = (refl, refl)

later :
    (p : Pipe) (i m k : ℕ) (killed : Bool) (r : Written)
    → Stopped p (i + 1) m k killed r
    → Stopped p i (suc m) (suc k) killed r
later p i m k killed r (all e e') = all (ap suc e) e'
later p i m k killed r (no_reader c l d e) = no_reader (omega arith) l d e
later p i m k killed r (full c l o d e) =
    let z : i + 1 + k ≡ i + suc k = omega arith in full (omega arith) l o d (e ∙ ap asleep z)

pub write_loop_lem :
    (m i : ℕ) (addr : ℕ → ℕ) (killed : Bool) (s : PipeState)
    → IsValid s.pipe
    → (r : Written) × (s' : PipeState) × Wrote m i addr killed s r s'
write_loop_lem zero i addr killed s v = (
  done,
  s,
  record {
    run = zero_run i addr killed s;
    count = 0;
    bound = omega arith;
    queue = sym (append-nil (contents s.pipe));
    valid = v;
    why = all refl refl;
    sync = refl;
    writeopen = refl;
    readopen = refl;
  },
)
write_loop_lem (suc m) i addr killed s v = elim (Bool-cases (is_full s.pipe)) [
  | inr room ↦
      let t = putting (addr i) s in
      let (r, s', w) =
        write_loop_lem m (i + 1) addr killed t (put-IsValid (addr i) s.pipe v room) in
      (
        r,
        s',
        record {
          run = put_run m i addr killed s room ∙ w.run;
          count = suc w.count;
          bound = omega (arith, w.bound);
          queue =
              w.queue
              ∙ ap (λ xs. xs ++ chunk addr (i + 1) w.count) (contents-put (addr i) s.pipe v room)
              ∙ snoc-append (contents s.pipe) (addr i) (chunk addr (i + 1) w.count);
          valid = w.valid;
          why = later s'.pipe i m w.count killed r w.why;
          sync = w.sync;
          writeopen = w.writeopen ∙ (put-flags (addr i) s.pipe).0;
          readopen = w.readopen ∙ (put-flags (addr i) s.pipe).1;
        },
      )
  | inl f ↦ elim (Bool-cases (not s.pipe.readopen || killed)) [
    | inl d ↦ (
      dead,
      s,
      record {
        run = dead_run m i addr killed s f d;
        count = 0;
        bound = omega arith;
        queue = sym (append-nil (contents s.pipe));
        valid = v;
        why = no_reader (omega arith) (full_length s.pipe v f) d refl;
        sync = refl;
        writeopen = refl;
        readopen = refl;
      },
    )
    | inr d ↦
        let z : i ≡ i + 0 = omega arith in
        (
          asleep i,
          record s { calls = wake_readers ∷ s.calls },
          record {
            run = sleep_run m i addr killed s f d;
            count = 0;
            bound = omega arith;
            queue = sym (append-nil (contents s.pipe));
            valid = v;
            why =
                full (omega arith) (full_length s.pipe v f) (ground (arith, d)) (ground (arith, d))
                  (ap asleep z);
            sync = refl;
            writeopen = refl;
            readopen = refl;
          },
        )
  ]
]
