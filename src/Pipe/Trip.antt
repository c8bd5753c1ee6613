-- ===== src/Pipe/Trip.antt =====
-- What goes through a pipe, and what closing its ends does.
use fp_sisop20_b.Prelude.{
  ℕ, zero, suc, ◌+◌, ◌≤◌, ◌<◌, ◌≡◌, refl, sym, ap, subst, ◌∙◌, ◌⊎◌, inl, inr, Bool, true, false,
  not, ◌&&◌, List, [], ◌∷◌, ◌++◌, arith, append-nil, length, length-append, Bool-cases,
  if◌then◌else◌,
}
use fp_sisop20_b.Run.{ok}
use fp_sisop20_b.Spinlock.Critical.{IsFree, dropped, dropped-IsFree, acquire-taken, release-dropped}
use fp_sisop20_b.Pipe.{
  Pipe, pipesize, PipeState, kfree, wake_readers, wake_writers, Written, done, pipewrite, got,
  piperead, pipeclose,
}
use fp_sisop20_b.Pipe.Ring.{contents, IsValid}
use fp_sisop20_b.Pipe.Transfer.{chunk, Stopped, all, no_reader, full}
use fp_sisop20_b.Pipe.Receive.{lock_after, pipewrite_lem, piperead_lem}

length-chunk : (addr : ℕ → ℕ) (i n : ℕ) → length (chunk addr i n) ≡ n
length-chunk addr i zero = refl
length-chunk addr i (suc n) = ap suc (length-chunk addr (i + 1) n)

-- With room for all bytes the writing does not stop early.
all_written :
    (p : Pipe) (n k : ℕ) (killed : Bool) (r : Written) (addr : ℕ → ℕ)
    → n ≤ pipesize
    → contents p ≡ chunk addr 0 k
    → Stopped p 0 n k killed r
    → (k ≡ n) × (r ≡ done)
all_written p n k killed r addr h e (all a b) = (a, b)
all_written p n k killed r addr h e (no_reader c l d b) =
    let l' : k ≡ pipesize = sym (length-chunk addr 0 k) ∙ ap length (sym e) ∙ l in
    absurd (omega arith)
all_written p n k killed r addr h e (full c l o d b) =
    let l' : k ≡ pipesize = sym (length-chunk addr 0 k) ∙ ap length (sym e) ∙ l in
    absurd (omega arith)

-- Taking all that there is.
all_read :
    (n : ℕ) (xs bs rest : List ℕ)
    → xs ≡ bs ++ rest
    → length xs ≡ n
    → (length bs ≡ n) ⊎ (rest ≡ [])
    → (bs ≡ xs) × (rest ≡ [])
all_read n xs bs [] e h why = (sym (append-nil bs) ∙ sym e, refl)
all_read n xs bs (y ∷ ys) e h (inl l) =
    let total = length-append bs (y ∷ ys) in let e' = ap length e in absurd (omega arith)
all_read n xs bs (y ∷ ys) e h (inr z) = cc

-- Up to 512 bytes written into an empty pipe come out as they went in, in order, and leave it empty.
pub pipe_trip :
    (addr : ℕ → ℕ) (n : ℕ) (killed killed' : Bool) (s : PipeState)
    → IsValid s.pipe
    → IsFree s.sync
    → contents s.pipe ≡ []
    → 0 < n
    → n ≤ pipesize
    → (s' s'' : PipeState) × (pipewrite addr n killed s ≡ ok done s')
      × (piperead n killed' s' ≡ ok (got (chunk addr 0 n)) s'')
      × (contents s''.pipe ≡ [])
pipe_trip addr n killed killed' s v f none pos room =
    let (r, s', w) = pipewrite_lem addr n killed s v f in
    let q : contents s'.pipe ≡ chunk addr 0 w.count =
      w.queue ∙ ap (λ xs. xs ++ chunk addr 0 w.count) none in
    let (count, is_done) = all_written s'.pipe n w.count killed r addr room q w.why in
    let q' : contents s'.pipe ≡ chunk addr 0 n = q ∙ ap (chunk addr 0) count in
    let free' : IsFree s'.sync =
      subst IsFree (sym (w.lock ∙ ap (λ x. lock_after x s.sync) is_done))
        (dropped-IsFree s.sync f) in
    elim (piperead_lem n killed' s' w.valid free') [
      | inl (empty, o, run) ↦
          let z : 0 ≡ n = sym (ap length empty) ∙ ap length q' ∙ length-chunk addr 0 n in
          absurd (omega arith)
      | inr (bs, s'', d) ↦
          let (same, rest) =
            all_read n (chunk addr 0 n) bs (contents s''.pipe) (sym q' ∙ d.queue)
              (length-chunk addr 0 n) d.why in
          (s', s'', w.run ∙ ap (λ x. ok x s') is_done, d.run ∙ ap (λ x. ok (got x) s'') same, rest)
    ]

-- The pipe with one end closed.
abbrev shut_end : Bool → Pipe → Pipe
shut_end true p = record p { writeopen = false }
shut_end false p = record p { readopen = false }

-- pipeclose closes one end, wakes those that wait at the other, and frees the pipe exactly if both
-- ends are now closed. The bytes stay, and the lock is free again.
pub pipeclose_lem :
    (writable : Bool) (s : PipeState)
    → IsFree s.sync
    → let p = shut_end writable s.pipe in
      let woken = (if writable then wake_readers else wake_writers) ∷ s.calls in
      pipeclose writable s
      ≡ ok tt (record {
        pipe = p;
        sync = dropped s.sync;
        calls = if not p.readopen && not p.writeopen then kfree ∷ woken else woken;
      })
unfolding pipeclose
pipeclose_lem true s f = elim (Bool-cases s.pipe.readopen) [
  | inl o ↦ rw (acquire-taken s.sync f.unlocked, o, release-dropped s.sync f) refl
  | inr o ↦ rw (acquire-taken s.sync f.unlocked, o, release-dropped s.sync f) refl
]
pipeclose_lem false s f = elim (Bool-cases s.pipe.writeopen) [
  | inl o ↦ rw (acquire-taken s.sync f.unlocked, o, release-dropped s.sync f) refl
  | inr o ↦ rw (acquire-taken s.sync f.unlocked, o, release-dropped s.sync f) refl
]
