-- ===== src/File/Write.antt =====
-- filewrite on an inode: the bytes go out in portions that one transaction can hold.
use fp_sisop20_b.Prelude.{
  ℕ, suc, ◌+◌, ◌-◌, ◌≤◌, ◌<◌, ◌≡◌, refl, ◌⊎◌, inl, inr, true, false, Option, none, some, ◌∷◌, arith,
  ltb, ◌==◌, Bool-cases, update,
}
use fp_sisop20_b.Run.{ok}
use fp_sisop20_b.File.{
  File, begin_op, end_op, ilock, iunlock, Devices, FileState, is_less, advance_off, max_write,
  portion, write_round, after_round, write_loop,
}

-- What filewrite relies on in writei, for one inode and calls of at most `max_write` bytes: a call that
-- reports all its bytes has put them at its offset and changed no other byte, and one that fails has
-- changed none. `content d a` is byte `a` of the inode, and `mem` the memory of the process.
pub record IsWritei {D : Type 0} (dev : Devices D) (content : D → ℕ → ℕ) (mem : ℕ → ℕ) (ip : ℕ)
    : Type 0 where
  pub inside :
      (addr off n j : ℕ) (d : D)
      → n ≤ max_write
      → (dev.writei ip addr off n d).0 ≡ some n
      → j < n
      → content (dev.writei ip addr off n d).1 (off + j) ≡ mem (addr + j)
  pub outside :
      (addr off n a : ℕ) (d : D)
      → n ≤ max_write
      → (dev.writei ip addr off n d).0 ≡ some n
      → (a < off) ⊎ (off + n ≤ a)
      → content (dev.writei ip addr off n d).1 a ≡ content d a
  pub failed :
      (addr off n a : ℕ) (d : D)
      → (dev.writei ip addr off n d).0 ≡ none
      → content (dev.writei ip addr off n d).1 a ≡ content d a

pub portion_lem :
    (i n : ℕ) → i < n → (0 < portion i n) × (i + portion i n ≤ n) × (portion i n ≤ max_write)
portion_lem i n h = elim (Bool-cases (ltb max_write (n - i))) [
  | inl more ↦ rw more (ground arith, ground arith, ground arith)
  | inr less ↦ rw less (ground arith, ground arith, ground arith)
]

abbrev pub moved : ℕ → File → File
moved i q = record q { off = q.off + i }

module _ {D : Type 0} (dev : Devices D) where
  -- The state after a round's call of writei that gave `r`.
  abbrev pub ended : (f ip : ℕ) → D → FileState D → FileState D
  ended f ip d s = record s {
    device = d;
    calls = end_op ∷ iunlock ip ∷ ilock ip ∷ begin_op ∷ s.calls;
  }

  abbrev pub called : (f addr i n : ℕ) → FileState D → Option ℕ × D
  called f addr i n s = dev.writei (s.files f).ip (addr + i) (s.files f).off (portion i n) s.device

  pub round_none :
      (f addr i n : ℕ) (s : FileState D)
      → (called f addr i n s).0 ≡ none
      → write_round dev f addr i n s ≡ ok none (ended f (s.files f).ip (called f addr i n s).1 s)
  unfolding write_round
  round_none f addr i n s e = rw e refl

  pub round_some :
      (f addr i n r : ℕ) (s : FileState D)
      → (called f addr i n s).0 ≡ some r
      → 0 < r
      → write_round dev f addr i n s
        ≡ ok (some r) (record (ended f (s.files f).ip (called f addr i n s).1 s) {
          files = update s.files f (advance_off r (s.files f));
        })
  unfolding write_round
  round_some f addr i n r s e pos = let z : (r == 0) ≡ false = ground arith in rw (e, z) refl

  pub round_zero :
      (f addr i n : ℕ) (s : FileState D)
      → (called f addr i n s).0 ≡ some 0
      → write_round dev f addr i n s
        ≡ ok (some 0) (ended f (s.files f).ip (called f addr i n s).1 s)
  unfolding write_round
  round_zero f addr i n s e = rw e refl

  pub loop_stop :
      (m f addr i n : ℕ) (s : FileState D)
      → is_less i n ≡ false
      → write_loop dev (suc m) f addr i n s ≡ ok i s
  unfolding write_loop
  loop_stop m f addr i n s h = rw h refl

  pub loop_round :
      (m f addr i n : ℕ) (r : Option ℕ) (s t : FileState D)
      → is_less i n ≡ true
      → write_round dev f addr i n s ≡ ok r t
      → write_loop dev (suc m) f addr i n s
        ≡ after_round r i n (write_loop dev m f addr (i + portion i n) n) t
  unfolding write_loop
  loop_round m f addr i n r s t h e = rw (h, e) refl
