-- ===== src/Tests/File.antt =====
-- The theorems on open files, at a table whose file 1 is open twice, on an inode. The device keeps the
-- bytes of one inode, and its writei always writes all bytes.
use fp_sisop20_b.Prelude.{
  ℕ, ◌+◌, ◌-◌, ◌<◌, ◌≡◌, ◌≢◌, refl, ◌⊎◌, true, false, ◌&&◌, none, some, [], ◌++◌, ltb, leb, ◌==◌,
  if◌then◌else◌, arith, ap,
}
use fp_sisop20_b.Run.{ok, panics}
use fp_sisop20_b.Spinlock.Critical.{IsFree, dropped}
use fp_sisop20_b.Examples.{free_sync}
use fp_sisop20_b.File.{
  nfile, fd_none, fd_inode, File, Devices, FileState, below_one, closed, set_ref, filealloc,
  fileclose, filewrite, portion,
}
use fp_sisop20_b.File.Refs.{with_file, UsedBelow, filealloc_lem}
use fp_sisop20_b.File.Close.{given_back, fileclose_lem}
use fp_sisop20_b.Pipe.Alloc.{World, unheld}
use fp_sisop20_b.Pipe.Alloc.Ends.{Cleared}
use fp_sisop20_b.Pipe.Alloc.Outcome.{Result, pipealloc_lem}
use fp_sisop20_b.File.Write.{IsWritei}
use fp_sisop20_b.File.Progress.{Written, Reported}
use fp_sisop20_b.File.Finish.{filewrite_lem}

abbrev file : ℕ → File
file i = record {
  kind = if i == 1 then fd_inode else fd_none;
  ref = if i == 1 then 2 else 0;
  readable = true;
  writable = true;
  pipe = 0;
  ip = 5;
  off = 10;
}

abbrev Bytes : Type 0
Bytes = ℕ → ℕ

abbrev memory : ℕ → ℕ
memory a = a + 1

-- The bytes after a write.
abbrev after_write : (addr off n : ℕ) → Bytes → Bytes
after_write addr off n d a = if leb off a && ltb a (off + n) then memory (addr + (a - off)) else d a

abbrev disk : Devices Bytes
disk = record {
  piperead = λ p a n d. (none, d);
  pipewrite = λ p a n d. (none, d);
  readi = λ i a o n d. (none, d);
  writei = λ i a o n d. (some n, after_write a o n d);
  stati = λ i a d. d;
}

abbrev start : FileState Bytes
start = record { files = file; sync = free_sync; calls = []; device = λ a. 0 }

free : IsFree free_sync
free = record { unlocked = refl; nested = λ h. absurd (omega arith) }

disk-IsWritei : IsWritei disk (λ d. d) memory 5
disk-IsWritei = record {
  inside = λ addr off n j d small e h.
      let b : (leb off (off + j) && ltb (off + j) (off + n)) ≡ true = ground arith in
      rw b (ap memory (omega arith));
  outside = λ addr off n a d small e away. ground arith;
  failed = λ addr off n a d e. cc;
}

filealloc_example :
    ((f : ℕ) × (0 < f)
      × (f < nfile + 1)
      × ((file f).ref ≡ 0)
      × UsedBelow f start
      × (filealloc start ≡ ok f (with_file f (set_ref 1 (file f)) start)))
    ⊎ (UsedBelow (nfile + 1) start
        × (filealloc start ≡ ok 0 (record start { sync = dropped free_sync })))
filealloc_example = filealloc_lem start free

fileclose_example :
    ((below_one (file 1).ref ≡ true) × (fileclose 1 start ≡ panics "fileclose"))
    ⊎ ((1 < (file 1).ref) × (fileclose 1 start ≡ ok tt (with_file 1 (set_ref 1 (file 1)) start)))
    ⊎ (((file 1).ref ≡ 1)
        × (fileclose 1 start
            ≡ ok tt (record (with_file 1 (closed (file 1)) start) {
              calls = given_back (file 1) ++ [];
            })))
fileclose_example = fileclose_lem 1 start free

filewrite_example :
    ((t : FileState Bytes) × (filewrite disk 1 100 9000 start ≡ ok (some 9000) t)
      × Written (λ d. d) memory 1 100 9000 start t)
    ⊎ ((i : ℕ) × (t : FileState Bytes) × (i < 9000)
        × (filewrite disk 1 100 9000 start ≡ ok none t)
        × Written (λ d. d) memory 1 100 i start t
        × Reported disk (λ d. d) memory 1 100 9000 start i (λ r. r ≡ none))
    ⊎ ((i : ℕ) × (k : ℕ) × (filewrite disk 1 100 9000 start ≡ panics "short filewrite")
        × Reported disk
            (λ d. d)
            memory
            1
            100
            9000
            start
            i
            (λ r. (r ≡ some k) × (k ≢ portion i 9000)))
filewrite_example =
    filewrite_lem disk (λ d. d) memory 1 100 9000 start disk-IsWritei refl refl (omega arith)
      (omega arith)

abbrev world : World Bytes
world = record {
  table = start;
  pipes =
      λ p. record { bytes = λ i. 0; nread = 9; nwrite = 9; readopen = false; writeopen = false };
  locks = λ p. unheld;
  freed = [];
}

start-Cleared : Cleared start
start-Cleared f h = ground arith

pipealloc_example : Result 4096 world
pipealloc_example = pipealloc_lem 4096 world free start-Cleared
