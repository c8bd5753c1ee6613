-- ===== src/CString.antt =====
-- string.c. A C array of bytes is a function from its indices; only those below its size belong to
-- it.
pub mod Block
pub mod Compare
pub mod Text
use fp_sisop20_b.Prelude.{
  ℕ, zero, suc, ◌+◌, ◌-◌, ◌≤◌, ◌<◌, ◌≡◌, ◌≢◌, refl, sym, subst, ◌∙◌, ◌⊎◌, inl, inr, true, false,
  arith, ◌==◌, if◌then◌else◌, update, Bool-cases, ==→eq, ==→ne, update_self, update_ne,
}

abbrev pub Bytes : Type 0
Bytes = ℕ → ℕ

-- The loop of safestrcpy at index `i`, with `n` as the decrement has left it.
unfoldable pub copy_loop : (n i : ℕ) (s t : Bytes) → Bytes
copy_loop zero i s t = update s i 0
copy_loop (suc n) i s t =
    let s' = update s i (t i) in
    let rest = copy_loop n (i + 1) s' t in if t i == 0 then update s' (i + 1) 0 else rest

unfoldable pub safestrcpy : (s t : Bytes) → ℕ → Bytes
safestrcpy s t zero = s
safestrcpy s t (suc n) = copy_loop n 0 s t

-- `r` is the string `t` from index `i`, cut at `last`, in an array that was `s`.
pub record Copied (i last : ℕ) (s t r : Bytes) : Type 0 where
  pub end : ℕ
  pub from : i ≤ end
  pub bound : end ≤ last
  pub same : (j : ℕ) → i ≤ j → j < end → (r j ≡ t j) × (t j ≢ 0)
  pub nul : r end ≡ 0
  pub why : (end ≡ last) ⊎ (t end ≡ 0)
  pub before : (j : ℕ) → j < i → r j ≡ s j
  pub behind : (j : ℕ) → last < j → r j ≡ s j

copy_loop_last : (i : ℕ) (s t : Bytes) → Copied i (i + 0) s t (copy_loop 0 i s t)
unfolding copy_loop
copy_loop_last i s t = record {
  end = i;
  from = omega arith;
  bound = omega arith;
  same = λ j a b. absurd (omega arith);
  nul = ground arith;
  why = inl (omega arith);
  before = λ j a. ground arith;
  behind = λ j a. ground arith;
}

Copied-nul :
    (n i : ℕ) (s t : Bytes)
    → (t i == 0) ≡ true
    → Copied i (i + suc n) s t (update (update s i (t i)) (i + 1) 0)
Copied-nul n i s t stop = record {
  end = i;
  from = omega arith;
  bound = omega arith;
  same = λ j a b. absurd (omega arith);
  nul = ground arith;
  why = inr (ground arith);
  before = λ j a. ground arith;
  behind = λ j a. ground arith;
}

Copied-cons :
    (n i : ℕ) (s t r : Bytes)
    → (t i == 0) ≡ false
    → Copied (i + 1) (i + 1 + n) (update s i (t i)) t r
    → Copied i (i + suc n) s t r
Copied-cons n i s t r more c =
    let at_i : r i ≡ t i = c.before i (omega arith) ∙ update_self s i (t i) in
    record {
      end = c.end;
      from = omega (arith, c.from);
      bound = omega (arith, c.bound);
      same = λ j a b. elim (Bool-cases (j == i)) [
        | inl is ↦
            subst (λ k. (r k ≡ t k) × (t k ≢ 0)) (sym (==→eq j i is)) (at_i, ==→ne (t i) 0 more)
        | inr is ↦ c.same j (ground arith) b
      ];
      nul = c.nul;
      why = elim c.why [ inl e ↦ inl (omega arith) | inr e ↦ inr e ];
      before = λ j a. c.before j (omega arith) ∙ update_ne s i (t i) (λ e. omega arith);
      behind = λ j a. c.behind j (omega arith) ∙ update_ne s i (t i) (λ e. omega arith);
    }

copy_loop_nul :
    (n i : ℕ) (s t : Bytes)
    → (t i == 0) ≡ true
    → copy_loop (suc n) i s t ≡ update (update s i (t i)) (i + 1) 0
unfolding copy_loop
copy_loop_nul n i s t stop = rw stop refl

copy_loop_cons :
    (n i : ℕ) (s t : Bytes)
    → (t i == 0) ≡ false
    → copy_loop (suc n) i s t ≡ copy_loop n (i + 1) (update s i (t i)) t
unfolding copy_loop
copy_loop_cons n i s t more = rw more refl

copy_loop-Copied : (n i : ℕ) (s t : Bytes) → Copied i (i + n) s t (copy_loop n i s t)
copy_loop-Copied zero i s t = copy_loop_last i s t
copy_loop-Copied (suc n) i s t = elim (Bool-cases (t i == 0)) [
  | inl stop ↦ rw (copy_loop_nul n i s t stop) (Copied-nul n i s t stop)
  | inr more ↦
      rw (copy_loop_cons n i s t more)
        (Copied-cons n i s t _ more (copy_loop-Copied n (i + 1) (update s i (t i)) t))
]

-- safestrcpy with room for `n` bytes copies the bytes of `t` up to its end or to the last place,
-- whichever comes first, puts a zero there, and writes no byte from index `n` on.
pub safestrcpy_lem : (s t : Bytes) (n : ℕ) → 0 < n → Copied 0 (n - 1) s t (safestrcpy s t n)
unfolding safestrcpy
safestrcpy_lem s t zero h = absurd (omega arith)
safestrcpy_lem s t (suc n) h =
    let e : 0 + n ≡ suc n - 1 = omega arith in
    subst (λ m. Copied 0 m s t (copy_loop n 0 s t)) e (copy_loop-Copied n 0 s t)
