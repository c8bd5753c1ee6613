-- ===== src/Sysfile/Count.antt =====
-- How many descriptors refer to a file.
use fp_sisop20_b.Prelude.{
  ℕ, zero, suc, ◌+◌, ◌≤◌, ◌<◌, ◌≡◌, refl, ap, ◌∙◌, inl, inr, Bool, arith, ◌==◌, ==_refl, ==→eq,
  ==→ne, Bool-cases, if◌then◌else◌, update, update_self, update_ne,
}

abbrev pub bit : Bool → ℕ
bit b = if b then 1 else 0

-- The descriptors below `n` that refer to file `f`.
abbrev pub count : (n : ℕ) → (ℕ → ℕ) → (f : ℕ) → ℕ
count zero ofile f = 0
count (suc n) ofile f = count n ofile f + bit (ofile n == f)

count_frame :
    (n fd v f : ℕ) (ofile : ℕ → ℕ) → n ≤ fd → count n (update ofile fd v) f ≡ count n ofile f
count_frame zero fd v f ofile h = refl
count_frame (suc n) fd v f ofile h =
    rw
      (
        count_frame n fd v f ofile (omega (arith, h)),
        update_ne ofile fd v {q = n} (λ e. omega (arith, e, h)),
      )
      refl

-- A descriptor that changes takes its old file's count down, and its new one's up.
pub count_set :
    (n fd v f : ℕ) (ofile : ℕ → ℕ)
    → fd < n
    → count n (update ofile fd v) f + bit (ofile fd == f) ≡ count n ofile f + bit (v == f)
count_set zero fd v f ofile h = absurd (omega (arith, h))
count_set (suc n) fd v f ofile h = elim (Bool-cases (n == fd)) [
  | inl is ↦
      let e = ==→eq n fd is in
      ap (λ k. count n (update ofile fd v) f + bit (update ofile fd v k == f) + bit (ofile fd == f))
        e
      ∙ rw (update_self ofile fd v, count_frame n fd v f ofile (omega (arith, e)), e) (omega arith)
  | inr ne ↦
      let step = count_set n fd v f ofile (ground arith) in
      rw (update_ne ofile fd v {q = n} (==→ne n fd ne)) (omega (arith, step))
]

-- A descriptor counts for its file.
pub count_least : (n fd : ℕ) (ofile : ℕ → ℕ) → fd < n → 0 < count n ofile (ofile fd)
count_least zero fd ofile h = absurd (omega (arith, h))
count_least (suc n) fd ofile h = elim (Bool-cases (n == fd)) [
  | inl is ↦
      let e = ==→eq n fd is in
      let b : bit (ofile n == ofile fd) ≡ 1 = rw (e, ==_refl (ofile fd)) refl in omega (arith, b)
  | inr ne ↦ let step = count_least n fd ofile (ground arith) in omega (arith, step)
]
