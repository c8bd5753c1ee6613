-- ===== src/CString/Block.antt =====
-- memmove and memcmp of string.c, on one memory. A block does not reach past the end of the address
-- space, so addresses do not wrap around.
use fp_sisop20_b.Prelude.{
  ℕ, zero, suc, ◌+◌, ◌-◌, ◌≤◌, ◌<◌, ◌≡◌, sym, ap, ap₂, ◌∙◌, ◌⊎◌, inl, inr, false, ◌&&◌, arith, ◌==◌,
  ltb, leb, if◌then◌else◌, update, Bool-cases, ==→eq, ==→ne, update_self, update_ne,
}
use fp_sisop20_b.CString.{Bytes}

-- `while(n-- > 0) *d++ = *s++;`
unfoldable pub copy_up : (n d s : ℕ) → Bytes → Bytes
copy_up zero d s m = m
copy_up (suc n) d s m = copy_up n (d + 1) (s + 1) (update m d (m s))

-- `while(n-- > 0) *--d = *--s;`
unfoldable pub copy_down : (n d s : ℕ) → Bytes → Bytes
copy_down zero d s m = m
copy_down (suc n) d s m = copy_down n (d - 1) (s - 1) (update m (d - 1) (m (s - 1)))

unfoldable pub memmove : (dst src n : ℕ) → Bytes → Bytes
memmove dst src n m =
    if ltb src dst && ltb dst (src + n)
    then copy_down n (dst + n) (src + n) m
    else copy_up n dst src m

-- The memory with the block of `n` bytes at `src` copied to `dst`.
abbrev pub block_at : (dst src n : ℕ) → Bytes → Bytes
block_at dst src n m j = if leb dst j && ltb j (dst + n) then m (src + (j - dst)) else m j

-- A byte of the target block, and one outside it.
block_in :
    (dst src n j : ℕ) (m : Bytes)
    → dst ≤ j
    → j < dst + n
    → block_at dst src n m j ≡ m (src + (j - dst))
block_in dst src n j m h h' = ground arith

block_out : (dst src n j : ℕ) (m : Bytes) → (j < dst) ⊎ (dst + n ≤ j) → block_at dst src n m j ≡ m j
block_out dst src n j m h = ground arith

where_is : (dst n j : ℕ) → ((dst ≤ j) × (j < dst + n)) ⊎ (j < dst) ⊎ (dst + n ≤ j)
where_is dst n j = elim (Bool-cases (leb dst j)) [
  | inl a ↦ elim (Bool-cases (ltb j (dst + n))) [
    | inl b ↦ inl (ground arith, ground arith)
    | inr b ↦ inr (inr (ground arith))
  ]
  | inr a ↦ inr (inl (ground arith))
]

up_step :
    (n d s j : ℕ) (m : Bytes)
    → ((d ≤ s) ⊎ (s + suc n ≤ d))
    → block_at (d + 1) (s + 1) n (update m d (m s)) j ≡ block_at d s (suc n) m j
up_step n d s j m apart = elim (where_is (d + 1) n j) [
  | inl (a, b) ↦
      let e : s + 1 + (j - (d + 1)) ≡ s + (j - d) = omega arith in
      block_in (d + 1) (s + 1) n j (update m d (m s)) a b
      ∙ update_ne m d (m s) (λ z. omega arith)
      ∙ ap m e
      ∙ sym (block_in d s (suc n) j m (omega arith) (omega arith))
  | inr out ↦ block_out (d + 1) (s + 1) n j (update m d (m s)) out ∙ elim (Bool-cases (j == d)) [
    | inl is ↦
        let e : j ≡ d = ==→eq j d is in
        let e' : s ≡ s + (j - d) = omega arith in
        ap (update m d (m s)) e
        ∙ update_self m d (m s)
        ∙ ap m e'
        ∙ sym (block_in d s (suc n) j m (omega arith) (omega arith))
    | inr is ↦
        let ne = ==→ne j d is in
        update_ne m d (m s) ne
        ∙ sym (
            block_out d s (suc n) j m
              (elim out [ inl a ↦ inl (omega arith) | inr a ↦ inr (omega arith) ]))
  ]
]

copy_up_lem :
    (n d s j : ℕ) (m : Bytes) → ((d ≤ s) ⊎ (s + n ≤ d)) → copy_up n d s m j ≡ block_at d s n m j
unfolding copy_up
copy_up_lem zero d s j m apart = sym (
    block_out d s 0 j m
      (elim (where_is d 0 j) [ inl (a, b) ↦ absurd (omega arith) | inr out ↦ out ]))
copy_up_lem (suc n) d s j m apart =
    copy_up_lem n (d + 1) (s + 1) j (update m d (m s))
      (elim apart [ inl a ↦ inl (omega arith) | inr a ↦ inr (omega arith) ])
    ∙ up_step n d s j m apart

down_step :
    (n d s j : ℕ) (m : Bytes)
    → s < d
    → block_at d s n (update m (d + n) (m (s + n))) j ≡ block_at d s (suc n) m j
down_step n d s j m less = elim (where_is d n j) [
  | inl (a, b) ↦
      block_in d s n j (update m (d + n) (m (s + n))) a b
      ∙ update_ne m (d + n) (m (s + n)) (λ z. omega arith)
      ∙ sym (block_in d s (suc n) j m a (omega arith))
  | inr out ↦
      block_out d s n j (update m (d + n) (m (s + n))) out ∙ elim (Bool-cases (j == d + n)) [
        | inl is ↦
            let e : j ≡ d + n = ==→eq j (d + n) is in
            let e' : s + n ≡ s + (j - d) = omega arith in
            ap (update m (d + n) (m (s + n))) e
            ∙ update_self m (d + n) (m (s + n))
            ∙ ap m e'
            ∙ sym (block_in d s (suc n) j m (omega arith) (omega arith))
        | inr is ↦
            let ne = ==→ne j (d + n) is in
            update_ne m (d + n) (m (s + n)) ne
            ∙ sym
                (block_out d s (suc n) j m (elim out [ inl a ↦ inl a | inr a ↦ inr (omega arith) ]))
      ]
]

copy_down_step :
    (n d s : ℕ) (m : Bytes)
    → copy_down (suc n) (d + suc n) (s + suc n) m
      ≡ copy_down n (d + n) (s + n) (update m (d + n) (m (s + n)))
unfolding copy_down
copy_down_step n d s m =
    let e : d + suc n - 1 ≡ d + n = omega arith in
    let e' : s + suc n - 1 ≡ s + n = omega arith in
    ap₂ (λ a b. copy_down n a b (update m a (m b))) e e'

copy_down_zero : (d s j : ℕ) (m : Bytes) → copy_down 0 (d + 0) (s + 0) m j ≡ block_at d s 0 m j
unfolding copy_down
copy_down_zero d s j m = sym (
    block_out d s 0 j m
      (elim (where_is d 0 j) [ inl (a, b) ↦ absurd (omega arith) | inr out ↦ out ]))

copy_down_lem :
    (n d s j : ℕ) (m : Bytes) → s < d → copy_down n (d + n) (s + n) m j ≡ block_at d s n m j
copy_down_lem zero d s j m less = copy_down_zero d s j m
copy_down_lem (suc n) d s j m less =
    ap (λ r. r j) (copy_down_step n d s m)
    ∙ copy_down_lem n d s j (update m (d + n) (m (s + n))) less
    ∙ down_step n d s j m less

-- memmove copies the block of `n` bytes at `src` to `dst` as it was before the call, also where the
-- two overlap, and changes no other byte.
pub memmove_lem : (dst src n j : ℕ) (m : Bytes) → memmove dst src n m j ≡ block_at dst src n m j
unfolding memmove
memmove_lem dst src n j m = elim (Bool-cases (ltb src dst && ltb dst (src + n))) [
  | inl down ↦ rw down (copy_down_lem n dst src j m (ground arith))
  | inr up ↦ rw up (copy_up_lem n dst src j m (apart dst src n up))
]
  where
    apart : (d s k : ℕ) → (ltb s d && ltb d (s + k)) ≡ false → (d ≤ s) ⊎ (s + k ≤ d)
    apart d s k h = elim (Bool-cases (ltb s d)) [
      | inl a ↦ inr (ground arith)
      | inr a ↦ inl (ground arith)
    ]
