-- ===== src/Log/Install.antt =====
-- The two copying loops: write_log from the buffers to the log, and install_trans from the log to the
-- home blocks.
use fp_sisop20_b.Prelude.{
  ℕ, suc, ◌+◌, ◌≤◌, ◌<◌, ◌≡◌, ◌≢◌, refl, sym, ap, subst, ◌∙◌, inl, inr, arith, update, update_self,
  update_ne, ℕ_discrete,
}
use fp_sisop20_b.Log.{Block, Blocks, Store, bwrite}
use fp_sisop20_b.Log.Crash.{after, Always}
use fp_sisop20_b.Log.Phases.{IsHome, Trans, Header, IsOld, IsCommitted, installed_next}

pub bwrite-disk : (b : ℕ) (v : Block) (st : Store) → (bwrite b v st).disk ≡ update st.disk b v
unfolding bwrite
bwrite-disk b v st = refl

-- A home block is none of the log's.
pub home_ne : (start size b a : ℕ) → IsHome start size b → start ≤ a → a < start + size → b ≢ a
home_ne start size b a (inl h) lo hi e = omega arith
home_ne start size b a (inr h) lo hi e = omega arith

-- One more block of the log is filled.
fill :
    (start j : ℕ) (f : Blocks) (block : ℕ → ℕ) (new : Blocks) (v : Block)
    → v ≡ new (block j)
    → ((i : ℕ) → i < j → f (start + i + 1) ≡ new (block i))
    → (i : ℕ) → i < suc j
    → update f (start + j + 1) v (start + i + 1) ≡ new (block i)
fill start j f block new v e old i h = elim (ℕ_discrete i j) [
  | yes is ↦ rw is (update_self f (start + j + 1) v ∙ e)
  | no ne ↦ update_ne f (start + j + 1) v (λ z. ne (omega arith)) ∙ old i (omega arith)
]

-- A store whose writes started from disk `d`, with the disk in `P` at every moment.
pub record Traced (P : Blocks → Type 0) (d : Blocks) (st : Store) : Type 0 where
  pub replayed : st.disk ≡ after st.writes d
  pub always : Always P d st.writes

pub Traced-bwrite :
    (P : Blocks → Type 0) (d : Blocks) (b : ℕ) (v : Block) (st : Store)
    → Traced P d st
    → P (update st.disk b v)
    → Traced P d (bwrite b v st)
unfolding bwrite
Traced-bwrite P d b v st tr h = record {
  replayed = ap (λ f. update f b v) tr.replayed;
  always = (subst (λ f. P (update f b v)) tr.replayed h, tr.always);
}

module _ (start size n : ℕ) (block : ℕ → ℕ) (new old : Blocks) (w : Trans start size n block) where
  -- What write_log has done after `j` blocks.
  pub record Logged (j : ℕ) (st : Store) : Type 0 where
    pub is_old : IsOld start size old st.disk
    pub fresh : (b : ℕ) → IsHome start size b → st.buffers b ≡ new b
    pub logged : (i : ℕ) → i < j → st.disk (start + i + 1) ≡ new (block i)
    pub cached : (i : ℕ) → i < j → st.buffers (start + i + 1) ≡ new (block i)

  -- What install_trans has done after `j` blocks.
  pub record Placed (j : ℕ) (st : Store) : Type 0 where
    pub is_committed : IsCommitted start size n block new old j st.disk
    pub cached : (i : ℕ) → i < n → st.buffers (start + i + 1) ≡ new (block i)

  pub log_step :
      (j : ℕ) (st : Store)
      → j < n
      → Logged j st
      → Logged (suc j) (bwrite (start + j + 1) (st.buffers (block j)) st)
  unfolding bwrite
  log_step j st h l =
      let e = l.fresh (block j) (w.home j h) in
      let off = λ (b : ℕ) (hb : IsHome start size b).
        home_ne start size b (start + j + 1) hb (omega arith) (omega (arith, w.fits)) in
      record {
        is_old = record {
          header =
              ap {A = Block} {B = ℕ} (λ x. x 0)
                (update_ne st.disk (start + j + 1) _ (λ z. omega arith))
              ∙ l.is_old.header;
          homes = λ b hb. update_ne st.disk (start + j + 1) _ (off b hb) ∙ l.is_old.homes b hb;
        };
        fresh = λ b hb. update_ne st.buffers (start + j + 1) _ (off b hb) ∙ l.fresh b hb;
        logged = fill start j st.disk block new _ e l.logged;
        cached = fill start j st.buffers block new _ e l.cached;
      }

  pub place_step :
      (j : ℕ) (st : Store)
      → j < n
      → Placed j st
      → Placed (suc j) (bwrite (block j) (st.buffers (start + j + 1)) st)
  unfolding bwrite
  place_step j st h p =
      let e = p.cached j h in
      let c = p.is_committed in
      let off = λ (a : ℕ) (lo : start ≤ a) (hi : a < start + size) (z : a ≡ block j).
        home_ne start size (block j) a (w.home j h) lo hi (sym z) in
      let kept =
        λ (i : ℕ) (hi : i < n). off (start + i + 1) (omega arith) (omega (arith, w.fits)) in
      record {
        is_committed = record {
          header =
              subst (Header n block)
                (sym
                  (update_ne st.disk (block j) _ (off start (omega arith) (omega (arith, w.fits)))))
                c.header;
          logged = λ i hi. update_ne st.disk (block j) _ (kept i hi) ∙ c.logged i hi;
          homes = λ b hb.
              ap (λ v. update st.disk (block j) v b) e
              ∙ installed_next j block new old st.disk b (c.homes b hb);
        };
        cached = λ i hi. update_ne st.buffers (block j) _ (kept i hi) ∙ p.cached i hi;
      }
