-- ===== src/CString/Compare.antt =====
-- memcmp and strncmp of string.c. The result is an `int`, the pattern of a difference of bytes.
use fp_sisop20_b.Prelude.{
  ℕ, zero, suc, ◌+◌, ◌-◌, ◌%◌, ◌^◌, ◌<◌, ◌≡◌, ◌≢◌, refl, ap, ap₂, ◌∙◌, sym, ◌⊎◌, inl, inr, true,
  false, not, ◌&&◌, arith, ◌==◌, if◌then◌else◌, Bool-cases, ==→eq, ==→ne,
}
use fp_sisop20_b.CString.{Bytes}

abbrev pub difference : ℕ → ℕ → ℕ
difference a b = (a + 2 ^ 32 - b) % 2 ^ 32

unfoldable pub memcmp : (v1 v2 n : ℕ) → Bytes → ℕ
memcmp v1 v2 zero m = 0
memcmp v1 v2 (suc n) m =
    let rest = memcmp (v1 + 1) (v2 + 1) n m in
    if not (m v1 == m v2) then difference (m v1) (m v2) else rest

unfoldable pub strncmp : (p q n : ℕ) → Bytes → ℕ
strncmp p q zero m = 0
strncmp p q (suc n) m =
    let rest = strncmp (p + 1) (q + 1) n m in
    if not (m p == 0) && m p == m q then rest else difference (m p) (m q)

abbrev pub AllBytes : Bytes → Type 0
AllBytes m = (i : ℕ) → m i < 256

differ : (a b : ℕ) → a < 256 → b < 256 → a ≢ b → difference a b ≢ 0
differ a b h h' ne e = omega arith

-- The blocks agree, or differ first at place `k`.
pub record Differ (v1 v2 n : ℕ) (m : Bytes) (r : ℕ) : Type 0 where
  pub at : ℕ
  pub within : at < n
  pub before : (i : ℕ) → i < at → m (v1 + i) ≡ m (v2 + i)
  pub here : m (v1 + at) ≢ m (v2 + at)
  pub result : r ≡ difference (m (v1 + at)) (m (v2 + at))
  pub nonzero : r ≢ 0

abbrev pub Agree : (v1 v2 n : ℕ) → Bytes → Type 0
Agree v1 v2 n m = (i : ℕ) → i < n → m (v1 + i) ≡ m (v2 + i)

memcmp_same :
    (v1 v2 n : ℕ) (m : Bytes)
    → (m v1 == m v2) ≡ true
    → memcmp v1 v2 (suc n) m ≡ memcmp (v1 + 1) (v2 + 1) n m
unfolding memcmp
memcmp_same v1 v2 n m e = rw e refl

memcmp_other :
    (v1 v2 n : ℕ) (m : Bytes)
    → (m v1 == m v2) ≡ false
    → memcmp v1 v2 (suc n) m ≡ difference (m v1) (m v2)
unfolding memcmp
memcmp_other v1 v2 n m e = rw e refl

memcmp_zero : (v1 v2 : ℕ) (m : Bytes) → memcmp v1 v2 0 m ≡ 0
unfolding memcmp
memcmp_zero v1 v2 m = refl

-- Places behind an equal first byte.
shift :
    (v1 v2 k : ℕ) (m : Bytes) → m v1 ≡ m v2 → Agree (v1 + 1) (v2 + 1) k m → Agree v1 v2 (suc k) m
shift v1 v2 zero m e agree i h =
    let z : i ≡ 0 = omega arith in
    let a : v1 + i ≡ v1 = omega arith in let b : v2 ≡ v2 + i = omega arith in ap m a ∙ e ∙ ap m b
shift v1 v2 (suc k) m e agree zero h =
    let a : v1 + 0 ≡ v1 = omega arith in let b : v2 ≡ v2 + 0 = omega arith in ap m a ∙ e ∙ ap m b
shift v1 v2 (suc k) m e agree (suc i) h =
    let a : v1 + suc i ≡ v1 + 1 + i = omega arith in
    let b : v2 + 1 + i ≡ v2 + suc i = omega arith in ap m a ∙ agree i (omega arith) ∙ ap m b

-- memcmp returns 0 where the two blocks hold the same bytes, and otherwise the difference at the
-- first place where they differ, which is not 0.
pub memcmp_lem :
    (v1 v2 n : ℕ) (m : Bytes)
    → AllBytes m
    → ((memcmp v1 v2 n m ≡ 0) × Agree v1 v2 n m) ⊎ Differ v1 v2 n m (memcmp v1 v2 n m)
memcmp_lem v1 v2 zero m bytes = inl (memcmp_zero v1 v2 m, λ i h. absurd (omega arith))
memcmp_lem v1 v2 (suc n) m bytes = elim (Bool-cases (m v1 == m v2)) [
  | inl same ↦
      let e = ==→eq (m v1) (m v2) same in
      rw (memcmp_same v1 v2 n m same) (elim (memcmp_lem (v1 + 1) (v2 + 1) n m bytes) [
        | inl (z, agree) ↦ inl (z, shift v1 v2 n m e agree)
        | inr w ↦
            let a : v1 + 1 + w.at ≡ v1 + suc w.at = omega arith in
            let b : v2 + 1 + w.at ≡ v2 + suc w.at = omega arith in
            inr (record {
              at = suc w.at;
              within = omega (arith, w.within);
              before = shift v1 v2 w.at m e w.before;
              here = λ d. w.here (ap m a ∙ d ∙ sym (ap m b));
              result = w.result ∙ ap₂ difference (ap m a) (ap m b);
              nonzero = w.nonzero;
            })
      ])
  | inr other ↦
      let ne = ==→ne (m v1) (m v2) other in
      let a : v1 ≡ v1 + 0 = omega arith in
      let b : v2 ≡ v2 + 0 = omega arith in
      inr (record {
        at = 0;
        within = omega arith;
        before = λ i h. absurd (omega arith);
        here = λ d. ne (ap m a ∙ d ∙ sym (ap m b));
        result = memcmp_other v1 v2 n m other ∙ ap₂ difference (ap m a) (ap m b);
        nonzero = λ z.
            differ (m v1) (m v2) (bytes v1) (bytes v2) ne (sym (memcmp_other v1 v2 n m other) ∙ z);
      })
]
