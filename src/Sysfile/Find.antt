-- ===== src/Sysfile/Find.antt =====
-- Descriptors: what argfd finds and what fdalloc takes.
use fp_sisop20_b.Prelude.{
  ℕ, zero, suc, ◌+◌, ◌^◌, ◌≤◌, ◌<◌, ◌≡◌, ◌≢◌, refl, sym, ap, subst, ◌∙◌, ◌⊎◌, inl, inr, true, false,
  ◌||◌, Option, none, some, arith, leb, ◌==◌, ==→eq, ==→ne, Bool-cases, update,
}
use fp_sisop20_b.Run.{ok}
use fp_sisop20_b.Proc.Alloc.{nofile}
use fp_sisop20_b.Syscall.{argint}
use fp_sisop20_b.Sysfile.{SysState, look_up, found, argfd, fd_loop, fdalloc}

-- `fd`, the argument as `argint` gives it, is a descriptor of an open file.
abbrev pub IsOpen : Option ℕ → (ℕ → ℕ) → ℕ → Type 0
IsOpen a ofile fd = (a ≡ some fd) × (fd < nofile) × (ofile fd ≢ 0)

look_up_lem :
    (ofile : ℕ → ℕ) (fd : ℕ)
    → ((look_up ofile fd ≡ none) × (fd < nofile → ofile fd ≡ 0))
      ⊎ ((look_up ofile fd ≡ some (record { fd = fd; file = ofile fd }))
          × (fd < nofile)
          × (ofile fd ≢ 0))
look_up_lem ofile fd = elim (Bool-cases (leb (2 ^ 31) fd || leb nofile fd || ofile fd == 0)) [
  | inl bad ↦ inl (rw bad refl, λ lt. ground (arith, bad))
  | inr good ↦ inr (rw good refl, ground arith, ground arith)
]

module _ {D : Type 0} where
  argfd_run :
      (n : ℕ) (s : SysState D) (a : Option ℕ) → argint n s.caller ≡ a → argfd n s ≡ found a s
  unfolding argfd
  argfd_run n s a e = ap (λ b. found b s) e

  pub argfd_lem :
      (n : ℕ) (s : SysState D)
      → ((argfd n s ≡ ok none s) × ((fd : ℕ) → IsOpen (argint n s.caller) s.ofile fd → ⊥))
        ⊎ ((fd : ℕ) × (argfd n s ≡ ok (some (record { fd = fd; file = s.ofile fd })) s)
            × IsOpen (argint n s.caller) s.ofile fd)
  argfd_lem n s = by_arg (argint n s.caller) refl
    where
      by_arg :
          (a : Option ℕ)
          → argint n s.caller ≡ a
          → ((argfd n s ≡ ok none s) × ((fd : ℕ) → IsOpen (argint n s.caller) s.ofile fd → ⊥))
            ⊎ ((fd : ℕ) × (argfd n s ≡ ok (some (record { fd = fd; file = s.ofile fd })) s)
                × IsOpen (argint n s.caller) s.ofile fd)
      by_arg none e = inl (argfd_run n s none e, λ fd (is, lt, ne). cc)
      by_arg (some fd) e = elim (look_up_lem s.ofile fd) [
        | inl (bad, why) ↦ inl (
          argfd_run n s (some fd) e ∙ ap (λ r. ok r s) bad,
          λ g (is, lt, ne).
              let same : fd ≡ g = cc in ne (subst (λ k. k < nofile → s.ofile k ≡ 0) same why lt),
        )
        | inr (good, lt, ne) ↦
            inr (fd, argfd_run n s (some fd) e ∙ ap (λ r. ok r s) good, (e, lt, ne))
      ]

  fd_loop_free :
      (n fd f : ℕ) (s : SysState D)
      → (s.ofile fd == 0) ≡ true
      → fd_loop (suc n) fd f s ≡ ok (some fd) (record s { ofile = update s.ofile fd f })
  unfolding fd_loop
  fd_loop_free n fd f s h = rw h refl

  fd_loop_used :
      (n fd f : ℕ) (s : SysState D)
      → (s.ofile fd == 0) ≡ false
      → fd_loop (suc n) fd f s ≡ fd_loop n (fd + 1) f s
  unfolding fd_loop
  fd_loop_used n fd f s h = rw h refl

  fd_loop_end : (fd f : ℕ) (s : SysState D) → fd_loop 0 fd f s ≡ ok none s
  unfolding fd_loop
  fd_loop_end fd f s = refl

  -- The descriptors from `a` up to `b` are in use.
  abbrev pub InUse : (a b : ℕ) → SysState D → Type 0
  InUse a b s = (i : ℕ) → a ≤ i → i < b → s.ofile i ≢ 0

  InUse-next : (a b : ℕ) (s : SysState D) → s.ofile a ≢ 0 → InUse (a + 1) b s → InUse a b s
  InUse-next a b s ne rest i lo hi = elim (Bool-cases (i == a)) [
    | inl is ↦ subst (λ k. s.ofile k ≢ 0) (sym (==→eq i a is)) ne
    | inr other ↦ rest i (ground arith) hi
  ]

  fd_loop_lem :
      (n fd f : ℕ) (s : SysState D)
      → ((fd_loop n fd f s ≡ ok none s) × InUse fd (fd + n) s)
        ⊎ ((g : ℕ) × (fd_loop n fd f s ≡ ok (some g) (record s { ofile = update s.ofile g f }))
            × (g < fd + n)
            × (s.ofile g ≡ 0)
            × InUse fd g s)
  fd_loop_lem zero fd f s = inl (fd_loop_end fd f s, λ i lo hi. absurd (omega (arith, lo, hi)))
  fd_loop_lem (suc n) fd f s = elim (Bool-cases (s.ofile fd == 0)) [
    | inl is ↦ inr (
      fd,
      fd_loop_free n fd f s is,
      omega arith,
      ==→eq (s.ofile fd) 0 is,
      λ i lo hi. absurd (omega (arith, lo, hi)),
    )
    | inr used ↦
        let ne = ==→ne (s.ofile fd) 0 used in
        let e : fd + 1 + n ≡ fd + suc n = omega arith in
        elim (fd_loop_lem n (fd + 1) f s) [
          | inl (run, all) ↦ inl (
            fd_loop_used n fd f s used ∙ run,
            InUse-next fd (fd + suc n) s ne (subst (λ b. InUse (fd + 1) b s) e all),
          )
          | inr (g, run, lt, z, before) ↦ inr (
            g,
            fd_loop_used n fd f s used ∙ run,
            omega (arith, lt),
            z,
            InUse-next fd g s ne before,
          )
        ]
  ]

  pub fdalloc_lem :
      (f : ℕ) (s : SysState D)
      → ((fdalloc f s ≡ ok none s) × InUse 0 nofile s)
        ⊎ ((g : ℕ) × (fdalloc f s ≡ ok (some g) (record s { ofile = update s.ofile g f }))
            × (g < nofile)
            × (s.ofile g ≡ 0)
            × InUse 0 g s)
  unfolding fdalloc
  fdalloc_lem f s = fd_loop_lem nofile 0 f s
