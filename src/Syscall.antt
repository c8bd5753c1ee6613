-- ===== src/Syscall.antt =====
-- syscall.c: the arguments of a system call, fetched from the memory of the process.
pub mod Fetch
use fp_sisop20_b.Prelude.{
  ℕ, zero, suc, ◌+◌, ◌-◌, ◌*◌, ◌%◌, ◌^◌, ◌||◌, Option, none, some, ltb, leb, ◌==◌, if◌then◌else◌,
  and_next,
}

-- What the fetches read of `proc`: its size, the stack pointer of its trap frame, and the byte at
-- each address.
pub record Caller : Type 0 where
  pub sz : ℕ
  pub esp : ℕ
  pub mem : ℕ → ℕ

-- `*(int*)addr`, as a `uint`.
abbrev pub word_at : (ℕ → ℕ) → ℕ → ℕ
word_at mem a = mem a + 2 ^ 8 * mem (a + 1) + 2 ^ 16 * mem (a + 2) + 2 ^ 24 * mem (a + 3)

-- `none` is the result -1.
unfoldable pub fetchint : ℕ → Caller → Option ℕ
fetchint addr p =
    if leb p.sz addr || ltb p.sz ((addr + 4) % 2 ^ 32) then none else some (word_at p.mem addr)

-- A string: where it starts, and its length.
pub record Fetched : Type 0 where
  pub start : ℕ
  pub len : ℕ

-- The loop of fetchstr, with `n` bytes of the process left from `s` on.
unfoldable pub str_loop : (n s start : ℕ) → Caller → Option Fetched
str_loop zero s start p = none
str_loop (suc n) s start p =
    if p.mem s == 0
    then some (record { start = start; len = s - start })
    else str_loop n (s + 1) start p

unfoldable pub fetchstr : ℕ → Caller → Option Fetched
fetchstr addr p = if leb p.sz addr then none else str_loop (p.sz - addr) addr addr p

-- The address of argument `n`.
abbrev pub arg_at : ℕ → Caller → ℕ
arg_at n p = (p.esp + 4 + 4 * n) % 2 ^ 32

unfoldable pub argint : ℕ → Caller → Option ℕ
argint n p = fetchint (arg_at n p) p

-- The check of argptr on the address `i`. `size` is the `int` as a `uint`.
unfoldable pub check_block : (size : ℕ) → Caller → ℕ → Option ℕ
check_block size p i = if leb p.sz i || ltb p.sz ((i + size) % 2 ^ 32) then none else some i

unfoldable pub argptr : (n size : ℕ) → Caller → Option ℕ
argptr n size p = and_next (argint n p) (check_block size p)

unfoldable pub argstr : ℕ → Caller → Option Fetched
argstr n p = and_next (argint n p) (λ addr. fetchstr addr p)
