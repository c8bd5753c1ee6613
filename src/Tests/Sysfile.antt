-- ===== src/Tests/Sysfile.antt =====
-- The theorems on dup and close, at a process whose descriptor 0 refers to file 1 and whose argument is 0.
use fp_sisop20_b.Prelude.{
  ℕ, ◌+◌, ◌^◌, ◌<◌, ◌≡◌, refl, ◌⊎◌, inl, inr, Bool-cases, none, some, true, false, [], ◌==◌, ==→eq,
  if◌then◌else◌, update, arith,
}
use fp_sisop20_b.Run.{ok}
use fp_sisop20_b.Examples.{free_sync}
use fp_sisop20_b.Proc.Alloc.{nofile}
use fp_sisop20_b.File.{File, fd_inode}
use fp_sisop20_b.Sysfile.{SysState, sys_dup, sys_close}
use fp_sisop20_b.Syscall.{argint}
use fp_sisop20_b.Sysfile.Find.{IsOpen, InUse}
use fp_sisop20_b.Sysfile.Count.{count}
use fp_sisop20_b.Sysfile.Balance.{Counted, sys_dup_lem, sys_close_lem}

abbrev file : ℕ → File
file i = record {
  kind = fd_inode;
  ref = if i == 1 then 1 else 0;
  readable = true;
  writable = true;
  pipe = 0;
  ip = 5;
  off = 0;
}

abbrev start : SysState (Unit {0})
start = record {
  caller = record { sz = 4096; esp = 4000; mem = λ a. 0 };
  ofile = λ i. if i == 0 then 1 else 0;
  table = record { files = file; sync = free_sync; calls = []; device = tt };
}

start-Counted : Counted (λ f. 0) start
start-Counted = record {
  refs = refs;
  small = small;
  free = record { unlocked = refl; nested = λ h. absurd (omega arith) };
}
  where
    refs : (f : ℕ) → 0 < f → (file f).ref ≡ count nofile start.ofile f + 0
    refs f pos =
        let zero_ : (0 == f) ≡ false = ground arith in
        elim (Bool-cases (f == 1)) [
          | inl is ↦ rw (==→eq f 1 is) refl
          | inr ne ↦ let ne' : (1 == f) ≡ false = ground arith in rw (ne, ne', zero_) refl
        ]

    small : (f : ℕ) → (file f).ref + 1 < 2 ^ 31
    small f = elim (Bool-cases (f == 1)) [
      | inl is ↦ rw is (omega arith)
      | inr ne ↦ rw ne (omega arith)
    ]

room : (f : ℕ) → (file f).ref + 2 < 2 ^ 31
room f = elim (Bool-cases (f == 1)) [ inl is ↦ rw is (omega arith) | inr ne ↦ rw ne (omega arith) ]

sys_dup_example :
    ((sys_dup start ≡ ok none start)
      × (((fd : ℕ) → IsOpen (argint 0 start.caller) start.ofile fd → ⊥) ⊎ InUse 0 nofile start))
    ⊎ ((old : ℕ) × (fd : ℕ) × (s' : SysState (Unit {0})) × (sys_dup start ≡ ok (some fd) s')
        × IsOpen (argint 0 start.caller) start.ofile old
        × (fd < nofile)
        × (start.ofile fd ≡ 0)
        × InUse 0 fd start
        × (s'.ofile ≡ update start.ofile fd (start.ofile old))
        × Counted (λ f. 0) s')
sys_dup_example = sys_dup_lem (λ f. 0) start start-Counted room

sys_close_example :
    ((sys_close start ≡ ok none start)
      × ((fd : ℕ) → IsOpen (argint 0 start.caller) start.ofile fd → ⊥))
    ⊎ ((fd : ℕ) × (s' : SysState (Unit {0})) × (sys_close start ≡ ok (some 0) s')
        × IsOpen (argint 0 start.caller) start.ofile fd
        × (s'.ofile ≡ update start.ofile fd 0)
        × Counted (λ f. 0) s')
sys_close_example = sys_close_lem (λ f. 0) start start-Counted
