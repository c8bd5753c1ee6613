-- ===== src/CString/Text.antt =====
-- memset, memcpy, strncpy and strlen of string.c, on one memory. Addresses do not wrap around.
use fp_sisop20_b.Prelude.{
  ℕ, zero, suc, ◌+◌, ◌*◌, ◌/◌, ◌%◌, ◌≡◌, ap, ◌∙◌, Option, none, some, ◌&&◌, ◌==◌, leb, ltb,
  if◌then◌else◌, update, arith, Bool-cases, inl, inr,
}
use fp_sisop20_b.CString.{Bytes}
use fp_sisop20_b.CString.Block.{memmove}

-- stosb(): `n` bytes `c` from `d` on.
unfoldable pub stosb : (d c n : ℕ) → Bytes → Bytes
stosb d c zero m = m
stosb d c (suc n) m = stosb (d + 1) c n (update m d c)

-- stosl() of the word whose four bytes are `c`: `n` words from `d` on.
unfoldable pub stosl : (d c n : ℕ) → Bytes → Bytes
stosl d c zero m = m
stosl d c (suc n) m =
    stosl (d + 4) c n (update (update (update (update m d c) (d + 1) c) (d + 2) c) (d + 3) c)

unfoldable pub memset : (dst c n : ℕ) → Bytes → Bytes
memset dst c n m =
    if dst % 4 == 0 && n % 4 == 0 then stosl dst (c % 256) (n / 4) m else stosb dst (c % 256) n m

abbrev pub memcpy : (dst src n : ℕ) → Bytes → Bytes
memcpy = memmove

-- The first loop of strncpy, and the second, `while(n-- > 0) *s++ = 0;`, where it stops.
unfoldable pub strncpy : (s t n : ℕ) → Bytes → Bytes
strncpy s t zero m = m
strncpy s t (suc n) m =
    let m' = update m s (m t) in
    let rest = strncpy (s + 1) (t + 1) n m' in if m t == 0 then stosb (s + 1) 0 n m' else rest

-- The loop of strlen at place `n`.
unfoldable pub strlen_loop : (fuel s n : ℕ) → Bytes → Option ℕ
strlen_loop zero s n m = none
strlen_loop (suc fuel) s n m =
    let rest = strlen_loop fuel s (n + 1) m in if m (s + n) == 0 then some n else rest

-- The memory with `n` bytes `c` at `d`.
abbrev pub filled : (d c n : ℕ) → Bytes → Bytes
filled d c n m j = if leb d j && ltb j (d + n) then c else m j

stosb-filled : (d c n j : ℕ) (m : Bytes) → stosb d c n m j ≡ filled d c n m j
unfolding stosb
stosb-filled d c zero j m = ground arith
stosb-filled d c (suc n) j m = stosb-filled (d + 1) c n j (update m d c) ∙ ground arith

stosl-filled : (d c n j : ℕ) (m : Bytes) → stosl d c n m j ≡ filled d c (n * 4) m j
unfolding stosl
stosl-filled d c zero j m = ground arith
stosl-filled d c (suc n) j m =
    stosl-filled (d + 4) c n j
      (update (update (update (update m d c) (d + 1) c) (d + 2) c) (d + 3) c)
    ∙ ground arith

-- memset, by words or by bytes, sets the `n` bytes from `dst` on to the low byte of `c` and no other.
pub memset_lem : (dst c n j : ℕ) (m : Bytes) → memset dst c n m j ≡ filled dst (c % 256) n m j
unfolding memset
memset_lem dst c n j m = elim (Bool-cases (dst % 4 == 0 && n % 4 == 0)) [
  | inl words ↦
      let e : n / 4 * 4 ≡ n = ground (arith, words) in
      rw words (stosl-filled dst (c % 256) (n / 4) j m ∙ ap (λ k. filled dst (c % 256) k m j) e)
  | inr bytes ↦ rw bytes (stosb-filled dst (c % 256) n j m)
]
