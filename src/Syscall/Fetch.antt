-- ===== src/Syscall/Fetch.antt =====
-- The bounds checks of the argument fetches.
use fp_sisop20_b.Prelude.{
  ℕ, zero, suc, ◌+◌, ◌-◌, ◌%◌, ◌^◌, ◌≤◌, ◌<◌, ◌≡◌, ◌≢◌, refl, sym, subst, ap, ◌∙◌, ◌⊎◌, inl, inr,
  Bool-cases, true, false, none, some, ltb, leb, ◌==◌, ==→eq, ==→ne, arith,
}
use fp_sisop20_b.Kalloc.{kernbase}
use fp_sisop20_b.Syscall.{
  Caller, word_at, fetchint, str_loop, fetchstr, arg_at, argint, check_block, argptr, argstr,
}

fetchint-some :
    (addr : ℕ) (p : Caller)
    → p.sz ≤ kernbase
    → addr + 4 ≤ p.sz
    → fetchint addr p ≡ some (word_at p.mem addr)
unfolding fetchint
fetchint-some addr p low h =
    let a : leb p.sz addr ≡ false = ground arith in
    let b : ltb p.sz ((addr + 4) % 2 ^ 32) ≡ false = ground arith in rw (a, b) refl

fetchint-none : (addr : ℕ) (p : Caller) → p.sz ≤ kernbase → p.sz < addr + 4 → fetchint addr p ≡ none
unfolding fetchint
fetchint-none addr p low h = elim (Bool-cases (leb p.sz addr)) [
  | inl out ↦ rw out refl
  | inr on ↦ let b : ltb p.sz ((addr + 4) % 2 ^ 32) ≡ true = ground arith in rw (on, b) refl
]

-- `i` lies in the process, and so does the block of `size` bytes there; or `i + size` wraps around, which
-- takes a negative `size` that is not larger than `i`.
abbrev pub Passes : Caller → (i size : ℕ) → Type 0
Passes p i size = (i < p.sz) × ((i + size ≤ p.sz) ⊎ ((2 ^ 31 ≤ size) × (2 ^ 32 ≤ i + size)))

check_block_lem :
    (size i : ℕ) (p : Caller)
    → p.sz ≤ kernbase
    → size < 2 ^ 32
    → (Passes p i size × (check_block size p i ≡ some i))
      ⊎ ((Passes p i size → ⊥) × (check_block size p i ≡ none))
unfolding check_block
check_block_lem size i p low small = elim (Bool-cases (leb p.sz i)) [
  | inl out ↦ inr ((λ h. ground arith), rw out refl)
  | inr on ↦ elim (Bool-cases (ltb p.sz ((i + size) % 2 ^ 32))) [
    | inl past ↦ inr ((λ h. ground arith), rw (on, past) refl)
    | inr fits ↦ inl (passes on fits, rw (on, fits) refl)
  ]
]
  where
    passes : leb p.sz i ≡ false → ltb p.sz ((i + size) % 2 ^ 32) ≡ false → Passes p i size
    passes on fits = elim (Bool-cases (leb (i + size) p.sz)) [
      | inl whole ↦ (ground arith, inl (ground arith))
      | inr not_whole ↦ (ground arith, inr (ground arith, ground arith))
    ]

-- argptr on a process below the kernel and a size as a 32-bit pattern. It gives the argument word exactly
-- where that word lies in the process, and what it points to does too: the whole block of `size` bytes, or,
-- for a negative size, the pointer alone, which is at least the magnitude of the size. Otherwise it fails.
pub argptr_lem :
    (n size : ℕ) (p : Caller)
    → p.sz ≤ kernbase
    → size < 2 ^ 32
    → ((arg_at n p + 4 ≤ p.sz)
        × Passes p (word_at p.mem (arg_at n p)) size
        × (argptr n size p ≡ some (word_at p.mem (arg_at n p))))
      ⊎ ((((arg_at n p + 4 ≤ p.sz) × Passes p (word_at p.mem (arg_at n p)) size) → ⊥)
          × (argptr n size p ≡ none))
unfolding argptr argint
argptr_lem n size p low small = elim (Bool-cases (leb (arg_at n p + 4) p.sz)) [
  | inl on ↦
      let e = fetchint-some (arg_at n p) p low (ground arith) in
      elim (check_block_lem size (word_at p.mem (arg_at n p)) p low small) [
        | inl (fits, r) ↦ inl (ground arith, fits, rw e r)
        | inr (not_in, r) ↦ inr ((λ h. not_in h.1), rw e r)
      ]
  | inr out ↦ inr ((λ h. ground arith), rw (fetchint-none (arg_at n p) p low (ground arith)) refl)
]

-- The string at `s` of the process ends after `len` bytes, and not before.
pub record IsString (p : Caller) (s len : ℕ) : Type 0 where
  pub inside : s + len < p.sz
  pub ended : p.mem (s + len) ≡ 0
  pub chars : (i : ℕ) → i < len → p.mem (s + i) ≢ 0

-- No string starts at `s`: no terminator up to the end of the process.
abbrev pub Unended : Caller → ℕ → Type 0
Unended p s = (a : ℕ) → s ≤ a → a < p.sz → p.mem a ≢ 0

str_loop_step :
    (n j start : ℕ) (p : Caller)
    → (p.mem (start + j) == 0) ≡ false
    → str_loop (suc n) (start + j) start p ≡ str_loop n (start + (j + 1)) start p
unfolding str_loop
str_loop_step n j start p h = rw h (ap (λ a. str_loop n a start p) (omega arith))

str_loop_lem :
    (n j start : ℕ) (p : Caller)
    → start + j + n ≡ p.sz
    → ((i : ℕ) → i < j → p.mem (start + i) ≢ 0)
    → ((len : ℕ) × (str_loop n (start + j) start p ≡ some (record { start = start; len = len }))
        × IsString p start len)
      ⊎ ((str_loop n (start + j) start p ≡ none) × Unended p start)
unfolding str_loop
str_loop_lem zero j start p e seen = inr (
  refl,
  λ a lo hi z. seen (a - start) (omega (arith, e, lo, hi)) (ap p.mem (omega (arith, lo)) ∙ z),
)
str_loop_lem (suc n) j start p e seen = elim (Bool-cases (p.mem (start + j) == 0)) [
  | inl end_ ↦ inl (
    j,
    rw end_ (ap (λ k. some (record { start = start; len = k })) (omega arith)),
    record { inside = omega (arith, e); ended = ==→eq (p.mem (start + j)) 0 end_; chars = seen },
  )
  | inr more ↦
      let step = str_loop_step n j start p more in
      elim (str_loop_lem n (j + 1) start p (omega (arith, e)) (seen_next more)) [
        | inl (len, run, is) ↦ inl (len, step ∙ run, is)
        | inr (run, un) ↦ inr (step ∙ run, un)
      ]
]
  where
    seen_next : (p.mem (start + j) == 0) ≡ false → (i : ℕ) → i < j + 1 → p.mem (start + i) ≢ 0
    seen_next more i h = elim (Bool-cases (i == j)) [
      | inl is ↦
          subst (λ k. p.mem (start + k) ≢ 0) (sym (==→eq i j is)) (==→ne (p.mem (start + j)) 0 more)
      | inr ne ↦ seen i (ground arith)
    ]

fetchstr_lem :
    (addr : ℕ) (p : Caller)
    → ((len : ℕ) × (fetchstr addr p ≡ some (record { start = addr; len = len }))
        × IsString p addr len)
      ⊎ ((fetchstr addr p ≡ none) × Unended p addr)
unfolding fetchstr
fetchstr_lem addr p =
    let start : addr + 0 ≡ addr = omega arith in
    elim (Bool-cases (leb p.sz addr)) [
      | inl out ↦ inr (rw out refl, λ a lo hi. absurd (ground arith))
      | inr on ↦
          elim (str_loop_lem (p.sz - addr) 0 addr p (ground arith)
            (λ i h. absurd (omega (arith, h)))) [
              | inl (len, run, is) ↦
                  inl (len, rw (on, sym (ap (λ a. str_loop (p.sz - addr) a addr p) start)) run, is)
              | inr (run, un) ↦
                  inr (rw (on, sym (ap (λ a. str_loop (p.sz - addr) a addr p) start)) run, un)
            ]
    ]

-- argstr on a process below the kernel. It gives the argument word and the length of the string there,
-- where the word lies in the process and so does the whole string with its terminator; otherwise it
-- fails, and the word or the terminator lies outside.
pub argstr_lem :
    (n : ℕ) (p : Caller)
    → p.sz ≤ kernbase
    → ((len : ℕ) × (arg_at n p + 4 ≤ p.sz)
        × IsString p (word_at p.mem (arg_at n p)) len
        × (argstr n p ≡ some (record { start = word_at p.mem (arg_at n p); len = len })))
      ⊎ (((p.sz < arg_at n p + 4) ⊎ Unended p (word_at p.mem (arg_at n p))) × (argstr n p ≡ none))
unfolding argstr argint
argstr_lem n p low = elim (Bool-cases (leb (arg_at n p + 4) p.sz)) [
  | inl on ↦
      let e = fetchint-some (arg_at n p) p low (ground arith) in
      elim (fetchstr_lem (word_at p.mem (arg_at n p)) p) [
        | inl (len, run, is) ↦ inl (len, ground arith, is, rw e run)
        | inr (run, un) ↦ inr (inr un, rw e run)
      ]
  | inr out ↦ inr (inl (ground arith), rw (fetchint-none (arg_at n p) p low (ground arith)) refl)
]
