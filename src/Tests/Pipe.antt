-- ===== src/Tests/Pipe.antt =====
-- The theorems on pipes, at an empty pipe whose counters are about to wrap around.
use fp_sisop20_b.Prelude.{ℕ, ◌+◌, ◌-◌, ◌^◌, ◌≡◌, refl, ◌⊎◌, false, true, List, [], ◌∷◌, arith}
use fp_sisop20_b.Run.{ok}
use fp_sisop20_b.Spinlock.Critical.{IsFree, taken, dropped}
use fp_sisop20_b.Examples.{free_sync}
use fp_sisop20_b.Pipe.{
  Pipe, PipeState, Written, wake_readers, done, pipewrite, got, asleep_read, piperead, pipeclose,
}
use fp_sisop20_b.Pipe.Ring.{contents, IsValid}
use fp_sisop20_b.Pipe.Receive.{Queued, pipewrite_lem, Dequeued, piperead_lem}
use fp_sisop20_b.Pipe.Trip.{pipe_trip, pipeclose_lem}

abbrev pipe : Pipe
pipe = record {
  bytes = λ i. 0;
  nread = 2 ^ 32 - 1;
  nwrite = 2 ^ 32 - 1;
  readopen = true;
  writeopen = true;
}

abbrev start : PipeState
start = record { pipe = pipe; sync = free_sync; calls = [] }

pipe-IsValid : IsValid pipe
pipe-IsValid = record { read_word = omega arith; write_word = omega arith; fits = omega arith }

free : IsFree free_sync
free = record { unlocked = refl; nested = λ h. absurd (omega arith) }

abbrev letters : ℕ → ℕ
letters i = 97 + i

pipewrite_example : (r : Written) × (s' : PipeState) × Queued letters 3 false start r s'
pipewrite_example = pipewrite_lem letters 3 false start pipe-IsValid free

piperead_example :
    ((contents pipe ≡ [])
      × (true ≡ true)
      × (piperead 3 false start ≡ ok asleep_read (record start { sync = taken free_sync })))
    ⊎ ((bs : List ℕ) × (s' : PipeState) × Dequeued 3 false start bs s')
piperead_example = piperead_lem 3 false start pipe-IsValid free

pipe_trip_example :
    (s' s'' : PipeState) × (pipewrite letters 3 false start ≡ ok done s')
    × (piperead 3 false s' ≡ ok (got (97 ∷ 98 ∷ 99 ∷ [])) s'')
    × (contents s''.pipe ≡ [])
pipe_trip_example =
    pipe_trip letters 3 false false start pipe-IsValid free refl (omega arith) (omega arith)

pipeclose_example :
    pipeclose true start
    ≡ ok tt (record {
      pipe = record pipe { writeopen = false };
      sync = dropped free_sync;
      calls = wake_readers ∷ [];
    })
pipeclose_example = pipeclose_lem true start free
