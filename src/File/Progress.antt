-- ===== src/File/Progress.antt =====
-- How far the loop of filewrite has come, and what it leaves in the file.
use fp_sisop20_b.Prelude.{
  ℕ, ◌+◌, ◌-◌, ◌^◌, ◌≤◌, ◌<◌, ◌≡◌, ◌≢◌, refl, sym, ap, subst, ◌∙◌, ◌⊎◌, inl, inr, false, Option,
  none, some, arith, ltb, ◌==◌, ==→eq, ==→ne, Bool-cases, update, update_self,
}
use fp_sisop20_b.Run.{Run, ok, panics}
use fp_sisop20_b.File.{File, Devices, FileState, advance_off, portion}
use fp_sisop20_b.File.Close.{edit_twice, update_same}
use fp_sisop20_b.File.Write.{IsWritei, portion_lem, moved, ended, called}

-- From `s` to `t`, `i` bytes from `addr` on went to the old offset of file `f`, which moved on by as many;
-- no other file and no other byte changed.
pub record Written {D : Type 0} (content : D → ℕ → ℕ) (mem : ℕ → ℕ) (f addr i : ℕ)
    (s t : FileState D) : Type 0 where
  pub files : t.files ≡ update s.files f (moved i (s.files f))
  pub inside : (j : ℕ) → j < i → content t.device ((s.files f).off + j) ≡ mem (addr + j)
  pub outside :
      (a : ℕ)
      → (a < (s.files f).off) ⊎ ((s.files f).off + i ≤ a)
      → content t.device a ≡ content s.device a

-- The cases of what writei may report.
pub report : (r : Option ℕ) (p : ℕ) → (r ≡ none) ⊎ (r ≡ some p) ⊎ ((k : ℕ) × (r ≡ some k) × (k ≢ p))
report none p = inl refl
report (some k) p = elim (Bool-cases (k == p)) [
  | inl is ↦ inr (inl (ap some (==→eq k p is)))
  | inr ne ↦ inr (inr (k, refl, ==→ne k p ne))
]

module _ {D : Type 0} (dev : Devices D) (content : D → ℕ → ℕ) (mem : ℕ → ℕ) (f addr n : ℕ)
    (s : FileState D) where
  -- Some call of writei for the bytes from `i` on gave `r`.
  abbrev pub Reported : ℕ → (Option ℕ → Type 0) → Type 0
  Reported i P =
      (d : D) × P (dev.writei (s.files f).ip (addr + i) ((s.files f).off + i) (portion i n) d).0

  pub start-Written : Written content mem f addr 0 s s
  start-Written = record {
    files = sym (
        ap (λ (k : ℕ). update s.files f (record (s.files f) { off = k })) (omega arith)
        ∙ update_same s.files f);
    inside = λ j h. absurd (omega (arith, h));
    outside = λ a h. refl;
  }

  module _ (i : ℕ) (t : FileState D) (w : Written content mem f addr i s t) where
    file_now : t.files f ≡ moved i (s.files f)
    file_now = ap (λ (g : ℕ → File). g f) w.files ∙ update_self s.files f (moved i (s.files f))

    ip_now : (t.files f).ip ≡ (s.files f).ip
    ip_now = ap (λ (q : File). q.ip) file_now

    off_now : (t.files f).off ≡ (s.files f).off + i
    off_now = ap (λ (q : File). q.off) file_now

    pub called_now :
        called dev f addr i n t
        ≡ dev.writei (s.files f).ip (addr + i) ((s.files f).off + i) (portion i n) t.device
    called_now =
        ap (λ k. dev.writei k (addr + i) (t.files f).off (portion i n) t.device) ip_now
        ∙ ap (λ k. dev.writei (s.files f).ip (addr + i) k (portion i n) t.device) off_now

    -- A failed call leaves things as they are.
    pub none-Written :
        IsWritei dev content mem (s.files f).ip
        → (called dev f addr i n t).0 ≡ none
        → Written content mem f addr i s (ended dev f (t.files f).ip (called dev f addr i n t).1 t)
    none-Written c e =
        let e' = sym (ap (λ (r : Option ℕ × D). r.0) called_now) ∙ e in
        let same = λ (a : ℕ).
          ap (λ (r : Option ℕ × D). content r.1 a) called_now
          ∙ c.failed (addr + i) ((s.files f).off + i) (portion i n) a t.device e' in
        record {
          files = w.files;
          inside = λ j h. same ((s.files f).off + j) ∙ w.inside j h;
          outside = λ a h. same a ∙ w.outside a h;
        }

    pub some-Written :
        IsWritei dev content mem (s.files f).ip
        → i < n
        → (s.files f).off + n < 2 ^ 32
        → (called dev f addr i n t).0 ≡ some (portion i n)
        → Written content mem f addr
            (i + portion i n)
            s
            (record (ended dev f (t.files f).ip (called dev f addr i n t).1 t) {
              files = update t.files f (advance_off (portion i n) (t.files f));
            })
    some-Written c h small e =
        let q = s.files f in
        let p = portion i n in
        let (pos, most, few) = portion_lem i n h in
        let e' = sym (ap (λ (r : Option ℕ × D). r.0) called_now) ∙ e in
        let same = λ (a : ℕ) (away : (a < q.off + i) ⊎ (q.off + i + p ≤ a)).
          ap (λ (r : Option ℕ × D). content r.1 a) called_now
          ∙ c.outside (addr + i) (q.off + i) p a t.device few e' away in
        record {
          files =
              ap (λ (g : ℕ → File). update g f (advance_off p (g f))) w.files
              ∙ edit_twice s.files f (moved i q) (advance_off p)
              ∙ ap (λ k. update s.files f (record q { off = k })) (omega (arith, small, most));
          inside = λ j lt. elim (Bool-cases (ltb j i)) [
            | inl old ↦ same (q.off + j) (inl (ground arith)) ∙ w.inside j (ground arith)
            | inr new ↦
                ap (λ (r : Option ℕ × D). content r.1 (q.off + j)) called_now
                ∙ ap (content (dev.writei q.ip (addr + i) (q.off + i) p t.device).1)
                    (new_place q.off j new)
                ∙ c.inside (addr + i) (q.off + i) p (j - i) t.device few e' (ground arith)
                ∙ ap mem (sym (new_place addr j new))
          ];
          outside = λ a away. same a (later a away) ∙ w.outside a (earlier a away);
        }
      where
        new_place : (b j : ℕ) → ltb j i ≡ false → b + j ≡ b + i + (j - i)
        new_place b j h = ground arith

        later :
            (a : ℕ)
            → (a < (s.files f).off) ⊎ ((s.files f).off + (i + portion i n) ≤ a)
            → (a < (s.files f).off + i) ⊎ ((s.files f).off + i + portion i n ≤ a)
        later a (inl z) = inl (omega (arith, z))
        later a (inr z) = inr (omega (arith, z))

        earlier :
            (a : ℕ)
            → (a < (s.files f).off) ⊎ ((s.files f).off + (i + portion i n) ≤ a)
            → (a < (s.files f).off) ⊎ ((s.files f).off + i ≤ a)
        earlier a (inl z) = inl z
        earlier a (inr z) = inr (omega (arith, z))

  -- How the loop may end: all bytes are out, writei failed, or writei reported too few bytes.
  abbrev pub Ended : Run (FileState D) ℕ → Type 0
  Ended run =
      ((t : FileState D) × (run ≡ ok n t) × Written content mem f addr n s t)
      ⊎ ((i : ℕ) × (t : FileState D) × (i < n)
          × (run ≡ ok i t)
          × Written content mem f addr i s t
          × Reported i (λ r. r ≡ none))
      ⊎ ((i : ℕ) × (k : ℕ) × (run ≡ panics "short filewrite")
          × Reported i (λ r. (r ≡ some k) × (k ≢ portion i n)))

  pub Ended-step : (run run' : Run (FileState D) ℕ) → run ≡ run' → Ended run' → Ended run
  Ended-step run run' e x = subst Ended (sym e) x
