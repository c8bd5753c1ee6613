-- ===== src/Log/Loops.antt =====
-- The loops of log.c, taken as wholes.
use fp_sisop20_b.Prelude.{
  ℕ, zero, suc, ◌+◌, ◌≤◌, ◌<◌, ◌≡◌, refl, ap, subst, ◌∙◌, arith, update, update_self, update_ne,
  ℕ_discrete,
}
use fp_sisop20_b.Log.{
  Block, Blocks, Store, Log, bwrite, install_loop, write_loop, head_loop, read_loop,
}
use fp_sisop20_b.Log.Phases.{Trans, IsOld, IsCommitted}
use fp_sisop20_b.Log.Install.{
  Logged, Placed, log_step, place_step, Traced, Traced-bwrite, bwrite-disk,
}

-- The loops, with `m` blocks of the transaction to go.
module _ (lg : Log) (n : ℕ) (new old : Blocks) (w : Trans lg.start lg.size n lg.block)
    (P : Blocks → Type 0) (d : Blocks) where
  pub write_loop-Logged :
      (m j : ℕ) (st : Store)
      → j + m ≡ n
      → ((disk : Blocks) → IsOld lg.start lg.size old disk → P disk)
      → Logged lg.start lg.size n lg.block new old w j st
      → Traced P d st
      → Logged lg.start lg.size n lg.block new old w n (write_loop m j lg st)
        × Traced P d (write_loop m j lg st)
  unfolding write_loop
  write_loop-Logged zero j st e safe l tr =
      let e' : j ≡ n = omega arith in
      (subst (λ i. Logged lg.start lg.size n lg.block new old w i st) e' l, tr)
  write_loop-Logged (suc m) j st e safe l tr =
      let next = log_step lg.start lg.size n lg.block new old w j st (omega arith) l in
      let st' = bwrite (lg.start + j + 1) (st.buffers (lg.block j)) st in
      let e' : suc j ≡ j + 1 = omega arith in
      write_loop-Logged m (j + 1) st' (omega arith) safe
        (subst (λ i. Logged lg.start lg.size n lg.block new old w i st') e' next)
        (Traced-bwrite P d (lg.start + j + 1) (st.buffers (lg.block j)) st tr (
          safe _ (
            subst (IsOld lg.start lg.size old)
              (bwrite-disk (lg.start + j + 1) (st.buffers (lg.block j)) st) next.is_old)))

  pub install_loop-Placed :
      (m j : ℕ) (st : Store)
      → j + m ≡ n
      → ((i : ℕ) (disk : Blocks)
          → i ≤ n
          → IsCommitted lg.start lg.size n lg.block new old i disk
          → P disk)
      → Placed lg.start lg.size n lg.block new old w j st
      → Traced P d st
      → Placed lg.start lg.size n lg.block new old w n (install_loop m j lg st)
        × Traced P d (install_loop m j lg st)
  unfolding install_loop
  install_loop-Placed zero j st e safe l tr =
      let e' : j ≡ n = omega arith in
      (subst (λ i. Placed lg.start lg.size n lg.block new old w i st) e' l, tr)
  install_loop-Placed (suc m) j st e safe l tr =
      let next = place_step lg.start lg.size n lg.block new old w j st (omega arith) l in
      let v = st.buffers (lg.start + j + 1) in
      let st' = bwrite (lg.block j) v st in
      let e' : suc j ≡ j + 1 = omega arith in
      install_loop-Placed m (j + 1) st' (omega arith) safe
        (subst (λ i. Placed lg.start lg.size n lg.block new old w i st') e' next)
        (Traced-bwrite P d (lg.block j) v st tr (
          safe (suc j) _ (omega arith) (
            subst (IsCommitted lg.start lg.size n lg.block new old (suc j))
              (bwrite-disk (lg.block j) v st) next.is_committed)))

-- What write_head puts into the header block.
pub head_loop_lem :
    (m i : ℕ) (block : ℕ → ℕ) (hb : Block) (k : ℕ)
    → (k ≤ i → head_loop m i block hb k ≡ hb k)
      × ((j : ℕ) → i ≤ j → j < i + m → k ≡ j + 1 → head_loop m i block hb k ≡ block j)
unfolding head_loop
head_loop_lem zero i block hb k = ((λ h. refl), λ j a b e. absurd (omega arith))
head_loop_lem (suc m) i block hb k =
    let (low, high) = head_loop_lem m (i + 1) block (update hb (i + 1) (block i)) k in
    (
      (λ h. low (omega arith) ∙ update_ne hb (i + 1) (block i) (λ z. omega arith)),
      λ j a b e. elim (ℕ_discrete i j) [
        | yes is ↦
            let e' : k ≡ i + 1 = omega arith in
            low (omega arith) ∙ rw e' (update_self hb (i + 1) (block i) ∙ ap block is)
        | no ne ↦ high j (omega arith) (omega arith) e
      ],
    )

-- And what read_head takes out of it.
pub read_loop_lem :
    (m i : ℕ) (lh : Block) (block : ℕ → ℕ) (k : ℕ)
    → (k < i → read_loop m i lh block k ≡ block k)
      × (i ≤ k → k < i + m → read_loop m i lh block k ≡ lh (k + 1))
unfolding read_loop
read_loop_lem zero i lh block k = ((λ h. refl), λ a b. absurd (omega arith))
read_loop_lem (suc m) i lh block k =
    let (low, high) = read_loop_lem m (i + 1) lh (update block i (lh (i + 1))) k in
    (
      (λ h. low (omega arith) ∙ update_ne block i (lh (i + 1)) (λ z. omega arith)),
      λ a b. elim (ℕ_discrete i k) [
        | yes is ↦ low (omega arith) ∙ rw (← is) (update_self block i (lh (i + 1)))
        | no ne ↦ high (omega arith) (omega arith)
      ],
    )
