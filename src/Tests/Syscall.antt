-- ===== src/Tests/Syscall.antt =====
-- The theorems on argument fetches, at a process of one page whose stack pointer is 4000. The first
-- argument is 16, and the string "ab" stands there.
use fp_sisop20_b.Prelude.{ℕ, ◌+◌, ◌≤◌, ◌<◌, ◌≡◌, refl, ◌⊎◌, none, some, ◌==◌, if◌then◌else◌, arith}
use fp_sisop20_b.Syscall.{Caller, word_at, arg_at, fetchint, argint, argptr, argstr}
use fp_sisop20_b.Syscall.Fetch.{Passes, IsString, Unended, argptr_lem, argstr_lem}

abbrev bytes : ℕ → ℕ
bytes a = if a == 4004 then 16 else if a == 16 then 97 else if a == 17 then 98 else 0

abbrev caller : Caller
caller = record { sz = 4096; esp = 4000; mem = bytes }

argint_ab : argint 0 caller ≡ some 16
unfolding argint fetchint
argint_ab = refl

argptr_example :
    ((arg_at 0 caller + 4 ≤ 4096)
      × Passes caller (word_at bytes (arg_at 0 caller)) 100
      × (argptr 0 100 caller ≡ some (word_at bytes (arg_at 0 caller))))
    ⊎ ((((arg_at 0 caller + 4 ≤ 4096) × Passes caller (word_at bytes (arg_at 0 caller)) 100) → ⊥)
        × (argptr 0 100 caller ≡ none))
argptr_example = argptr_lem 0 100 caller (omega arith) (omega arith)

argstr_example :
    ((len : ℕ) × (arg_at 0 caller + 4 ≤ 4096)
      × IsString caller (word_at bytes (arg_at 0 caller)) len
      × (argstr 0 caller ≡ some (record { start = word_at bytes (arg_at 0 caller); len = len })))
    ⊎ (((4096 < arg_at 0 caller + 4) ⊎ Unended caller (word_at bytes (arg_at 0 caller)))
        × (argstr 0 caller ≡ none))
argstr_example = argstr_lem 0 caller (omega arith)
