-- ===== src/Pipe/Ring.antt =====
-- The bytes between the two counters, as a queue.
use fp_sisop20_b.Prelude.{
  ℕ, zero, suc, ◌+◌, ◌-◌, ◌%◌, ◌^◌, ◌≤◌, ◌<◌, ◌≡◌, refl, ap, ap₂, ◌∙◌, false, List, [], ◌∷◌, ◌++◌,
  arith, update, update_self, update_ne, length, ◌==◌,
}
use fp_sisop20_b.Pipe.{Pipe, pipesize, is_full, is_empty, put, advance}

-- `n` bytes from counter `r` on.
abbrev pub window : (ℕ → ℕ) → (r n : ℕ) → List ℕ
window bytes r zero = []
window bytes r (suc n) = bytes (r % pipesize) ∷ window bytes ((r + 1) % 2 ^ 32) n

-- How many bytes the pipe holds.
abbrev pub size : Pipe → ℕ
size p = (p.nwrite + 2 ^ 32 - p.nread) % 2 ^ 32

abbrev pub contents : Pipe → List ℕ
contents p = window p.bytes p.nread (size p)

pub record IsValid (p : Pipe) : Type 0 where
  pub read_word : p.nread < 2 ^ 32
  pub write_word : p.nwrite < 2 ^ 32
  pub fits : size p ≤ pipesize

pub length-window : (bytes : ℕ → ℕ) (r n : ℕ) → length (window bytes r n) ≡ n
length-window bytes r zero = refl
length-window bytes r (suc n) = ap suc (length-window bytes ((r + 1) % 2 ^ 32) n)

pub is_full_lem : (p : Pipe) → IsValid p → is_full p ≡ (size p == pipesize)
is_full_lem p v = ground (arith, v)

pub is_empty_lem : (p : Pipe) → IsValid p → is_empty p ≡ (size p == 0)
is_empty_lem p v = ground (arith, v)

-- A byte written just behind a window extends it.
window-put :
    (bytes : ℕ → ℕ) (r n w b : ℕ)
    → n < pipesize
    → w ≡ (r + n) % 2 ^ 32
    → window (update bytes (w % pipesize) b) r (suc n) ≡ window bytes r n ++ b ∷ []
window-put bytes r zero w b h e =
    let e' : r % pipesize ≡ w % pipesize = omega arith in
    ap (λ x. x ∷ []) (ap (update bytes (w % pipesize) b) e' ∙ update_self bytes (w % pipesize) b)
window-put bytes r (suc n) w b h e =
    ap₂ ◌∷◌ (update_ne bytes (w % pipesize) b (λ z. omega arith))
      (window-put bytes ((r + 1) % 2 ^ 32) n w b (omega arith) (omega arith))

pub put-IsValid : (b : ℕ) (p : Pipe) → IsValid p → is_full p ≡ false → IsValid (put b p)
unfolding put
put-IsValid b p v room = record {
  read_word = v.read_word;
  write_word = omega arith;
  fits = ground (arith, v);
}

pub contents-put :
    (b : ℕ) (p : Pipe) → IsValid p → is_full p ≡ false → contents (put b p) ≡ contents p ++ b ∷ []
unfolding put
contents-put b p v room =
    let e : (((p.nwrite + 1) % 2 ^ 32) + 2 ^ 32 - p.nread) % 2 ^ 32 ≡ suc (size p) =
      ground (arith, v) in
    let e' : p.nwrite ≡ (p.nread + size p) % 2 ^ 32 = omega (arith, v.read_word, v.write_word) in
    let small : size p < pipesize = ground (arith, v) in
    ap (window (update p.bytes (p.nwrite % pipesize) b) p.nread) e
    ∙ window-put p.bytes p.nread (size p) p.nwrite b small e'

pub advance-IsValid : (p : Pipe) → IsValid p → is_empty p ≡ false → IsValid (advance p)
unfolding advance
advance-IsValid p v some_ = record {
  read_word = omega arith;
  write_word = v.write_word;
  fits = ground (arith, v);
}

pub contents-advance :
    (p : Pipe)
    → IsValid p
    → is_empty p ≡ false
    → contents p ≡ p.bytes (p.nread % pipesize) ∷ contents (advance p)
unfolding advance
contents-advance p v some_ =
    let e : size p ≡ suc ((p.nwrite + 2 ^ 32 - (p.nread + 1) % 2 ^ 32) % 2 ^ 32) =
      ground (arith, v) in
    ap (window p.bytes p.nread) e
