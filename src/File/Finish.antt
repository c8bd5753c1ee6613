-- ===== src/File/Finish.antt =====
-- filewrite always comes to an end.
use fp_sisop20_b.Prelude.{
  ℕ, zero, suc, ◌+◌, ◌^◌, ◌≤◌, ◌<◌, ◌≡◌, ◌≢◌, refl, sym, ap, subst, ◌∙◌, ◌⊎◌, inl, inr, Bool, true,
  false, Option, none, some, String, arith, ◌==◌, ==_ne, ==_refl, Bool-cases, if◌then◌else◌, update,
}
use fp_sisop20_b.Run.{ok, panics, Cmd}
use fp_sisop20_b.File.{
  fd_inode, Devices, FileState, is_less, advance_off, portion, after_round, write_loop, write_as,
  filewrite,
}
use fp_sisop20_b.File.Write.{
  IsWritei, portion_lem, ended, called, round_none, round_some, round_zero, loop_stop, loop_round,
}
use fp_sisop20_b.File.Progress.{
  Written, Reported, start-Written, called_now, none-Written, some-Written, report, Ended,
  Ended-step,
}

module _ {D : Type 0} (dev : Devices D) (content : D → ℕ → ℕ) (mem : ℕ → ℕ) (f addr n : ℕ)
    (s : FileState D) where
  round_full :
      (m i : ℕ) (t : FileState D)
      → i < n
      → n < 2 ^ 31
      → (called dev f addr i n t).0 ≡ some (portion i n)
      → write_loop dev (suc m) f addr i n t
        ≡ write_loop dev m f addr
            (i + portion i n)
            n
            (record (ended dev f (t.files f).ip (called dev f addr i n t).1 t) {
              files = update t.files f (advance_off (portion i n) (t.files f));
            })
  round_full m i t h small e =
      let (pos, most, few) = portion_lem i n h in
      let go : is_less i n ≡ true = ground arith in
      let u : FileState D = record (ended dev f (t.files f).ip (called dev f addr i n t).1 t) {
        files = update t.files f (advance_off (portion i n) (t.files f));
      } in
      loop_round dev m f addr i n (some (portion i n)) t u go
        (round_some dev f addr i n (portion i n) t e pos)
      ∙ goes (portion i n == portion i n) (==_refl (portion i n))
          (write_loop dev m f addr (i + portion i n) n) u
    where
      goes :
          (b : Bool)
          → b ≡ true
          → (rest : Cmd (FileState D) ℕ) (u : FileState D)
          → (if b then rest else (λ v. panics "short filewrite")) u ≡ rest u
      goes b e rest u = rw e refl

  short_panics :
      (r : ℕ) (i : ℕ) (rest : Cmd (FileState D) ℕ) (u : FileState D)
      → r ≢ portion i n
      → after_round (some r) i n rest u ≡ panics "short filewrite"
  short_panics r i rest u ne = let e : (r == portion i n) ≡ false = ==_ne ne in rw e refl

  round_short :
      (m i k : ℕ) (t : FileState D)
      → i < n
      → n < 2 ^ 31
      → (called dev f addr i n t).0 ≡ some k
      → k ≢ portion i n
      → write_loop dev (suc m) f addr i n t ≡ panics "short filewrite"
  round_short m i zero t h small e ne =
      let go : is_less i n ≡ true = ground arith in
      let u = ended dev f (t.files f).ip (called dev f addr i n t).1 t in
      loop_round dev m f addr i n (some 0) t u go (round_zero dev f addr i n t e)
      ∙ short_panics 0 i (write_loop dev m f addr (i + portion i n) n) u ne
  round_short m i (suc k) t h small e ne =
      let go : is_less i n ≡ true = ground arith in
      let u : FileState D = record (ended dev f (t.files f).ip (called dev f addr i n t).1 t) {
        files = update t.files f (advance_off (suc k) (t.files f));
      } in
      loop_round dev m f addr i n (some (suc k)) t u go
        (round_some dev f addr i n (suc k) t e (omega arith))
      ∙ short_panics (suc k) i (write_loop dev m f addr (i + portion i n) n) u ne

  loop_lem :
      (m i : ℕ) (t : FileState D)
      → IsWritei dev content mem (s.files f).ip
      → n < 2 ^ 31
      → (s.files f).off + n < 2 ^ 32
      → i ≤ n
      → n < i + m
      → Written content mem f addr i s t
      → Ended dev content mem f addr n s (write_loop dev m f addr i n t)
  loop_lem zero i t c small room le enough w = absurd (omega (arith, le, enough))
  loop_lem (suc m) i t c small room le enough w = elim (Bool-cases (is_less i n)) [
    | inr stop ↦
        let e : i ≡ n = ground arith in
        inl (
          t,
          loop_stop dev m f addr i n t stop ∙ ap (λ k. ok k t) e,
          subst (λ k. Written content mem f addr k s t) e w,
        )
    | inl go ↦
        let h : i < n = ground arith in
        let now = called_now dev content mem f addr n s i t w in
        let seen = ap (λ (r : Option ℕ × D). r.0) (sym now) in
        elim (report (called dev f addr i n t).0 (portion i n)) [
          | inl e ↦ inr (
              inl (
                i,
                ended dev f (t.files f).ip (called dev f addr i n t).1 t,
                h,
                loop_round dev m f addr i n none t
                    (ended dev f (t.files f).ip (called dev f addr i n t).1 t) go
                    (round_none dev f addr i n t e),
                none-Written dev content mem f addr n s i t w c e,
                (t.device, seen ∙ e),
              ))
          | inr (inl e) ↦
              let (pos, most, few) = portion_lem i n h in
              Ended-step dev content mem f addr n s (write_loop dev (suc m) f addr i n t)
                (write_loop dev m f addr (i + portion i n) n
                  (record (ended dev f (t.files f).ip (called dev f addr i n t).1 t) {
                    files = update t.files f (advance_off (portion i n) (t.files f));
                  }))
                (round_full m i t h small e)
                (loop_lem m (i + portion i n)
                  (record (ended dev f (t.files f).ip (called dev f addr i n t).1 t) {
                    files = update t.files f (advance_off (portion i n) (t.files f));
                  })
                  c small room most (omega (arith, enough, pos))
                  (some-Written dev content mem f addr n s i t w c h room e))
          | inr (inr (k, e, ne)) ↦
              inr (inr (i, k, round_short m i k t h small e ne, (t.device, (seen ∙ e, ne))))
        ]
  ]

write_run :
    {D : Type 0} (dev : Devices D) (f addr n i : ℕ) (s t : FileState D)
    → (s.files f).writable ≡ true
    → (s.files f).kind ≡ fd_inode
    → write_loop dev (n + 1) f addr 0 n s ≡ ok i t
    → filewrite dev f addr n s ≡ ok (if i == n then some n else none) t
unfolding filewrite write_as
write_run dev f addr n i s t on kind e = rw (on, kind, e) refl

write_panics :
    {D : Type 0} (dev : Devices D) (f addr n : ℕ) (m : String) (s : FileState D)
    → (s.files f).writable ≡ true
    → (s.files f).kind ≡ fd_inode
    → write_loop dev (n + 1) f addr 0 n s ≡ panics m
    → filewrite dev f addr n s ≡ panics m
unfolding filewrite write_as
write_panics dev f addr n m s on kind e = rw (on, kind, e) refl

-- filewrite on an inode that is open for writing, with an offset that does not overflow, always ends, in
-- one of three ways. It gives `n` and has written all bytes at the old offset, which moves on by `n`. Or
-- writei failed: it gives -1, and the bytes before the failed portion are written. Or writei reported
-- another count than it was asked for, and it panics. It writes in portions of at most `max_write` bytes.
pub filewrite_lem :
    {D : Type 0} (dev : Devices D) (content : D → ℕ → ℕ) (mem : ℕ → ℕ) (f addr n : ℕ)
    (s : FileState D)
    → IsWritei dev content mem (s.files f).ip
    → (s.files f).writable ≡ true
    → (s.files f).kind ≡ fd_inode
    → n < 2 ^ 31
    → (s.files f).off + n < 2 ^ 32
    → ((t : FileState D) × (filewrite dev f addr n s ≡ ok (some n) t)
        × Written content mem f addr n s t)
      ⊎ ((i : ℕ) × (t : FileState D) × (i < n)
          × (filewrite dev f addr n s ≡ ok none t)
          × Written content mem f addr i s t
          × Reported dev content mem f addr n s i (λ r. r ≡ none))
      ⊎ ((i : ℕ) × (k : ℕ) × (filewrite dev f addr n s ≡ panics "short filewrite")
          × Reported dev content mem f addr n s i (λ r. (r ≡ some k) × (k ≢ portion i n)))
filewrite_lem dev content mem f addr n s c on kind small room =
    elim (loop_lem dev content mem f addr n s (n + 1) 0 s c small room (omega arith) (omega arith)
      (start-Written dev content mem f addr n s)) [
        | inl (t, run, w) ↦ inl (
          t,
          write_run dev f addr n n s t on kind run
              ∙ ap (λ (b : Bool). ok (if b then some n else none) t) (==_refl n),
          w,
        )
        | inr (inl (i, t, h, run, w, r)) ↦
            let ne : (i == n) ≡ false = ground arith in
            inr (
              inl (
                i,
                t,
                h,
                write_run dev f addr n i s t on kind run
                    ∙ ap (λ (b : Bool). ok (if b then some n else none) t) ne,
                w,
                r,
              ))
        | inr (inr (i, k, run, r)) ↦
            inr (inr (i, k, write_panics dev f addr n "short filewrite" s on kind run, r))
      ]
