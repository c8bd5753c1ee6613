-- ===== src/File/Refs.antt =====
-- The reference counts of the file table: filealloc, filedup and fileclose.
use fp_sisop20_b.Prelude.{
  ℕ, zero, suc, ◌+◌, ◌<◌, ◌≡◌, ◌≢◌, refl, sym, subst, ◌∙◌, ◌⊎◌, inl, inr, arith, ◌==◌, ==_ne, ==→eq,
  ==→ne, Bool-cases, update,
}
use fp_sisop20_b.Run.{ok}
use fp_sisop20_b.Spinlock.Critical.{IsFree, taken, dropped, acquire-taken, release-dropped}
use fp_sisop20_b.File.{nfile, File, FileState, set_ref, alloc_loop, filealloc}

module _ {D : Type 0} where
  -- The state after a section that leaves file `f` as `q`.
  abbrev pub with_file : ℕ → File → FileState D → FileState D
  with_file f q s = record s { files = update s.files f q; sync = dropped s.sync }

  -- Every file below `f` is in use.
  abbrev pub UsedBelow : ℕ → FileState D → Type 0
  UsedBelow f s = (g : ℕ) → 0 < g → g < f → (s.files g).ref ≢ 0

  UsedBelow-next :
      (f : ℕ) (s : FileState D) → UsedBelow f s → (s.files f).ref ≢ 0 → UsedBelow (f + 1) s
  UsedBelow-next f s used ne g pos h = elim (Bool-cases (g == f)) [
    | inl is ↦ subst (λ k. (s.files k).ref ≢ 0) (sym (==→eq g f is)) ne
    | inr other ↦ used g pos (ground arith)
  ]

  loop_free :
      (n f : ℕ) (s : FileState D)
      → IsFree s.sync
      → (s.files f).ref ≡ 0
      → alloc_loop (suc n) f (record s { sync = taken s.sync })
        ≡ ok f (with_file f (set_ref 1 (s.files f)) s)
  unfolding alloc_loop
  loop_free n f s free h = rw (h, release-dropped s.sync free) refl

  loop_used :
      (n f : ℕ) (s : FileState D)
      → (s.files f).ref ≢ 0
      → alloc_loop (suc n) f (record s { sync = taken s.sync })
        ≡ alloc_loop n (f + 1) (record s { sync = taken s.sync })
  unfolding alloc_loop
  loop_used n f s h = rw (==_ne h) refl

  loop_none :
      (f : ℕ) (s : FileState D)
      → IsFree s.sync
      → alloc_loop 0 f (record s { sync = taken s.sync })
        ≡ ok 0 (record s { sync = dropped s.sync })
  unfolding alloc_loop
  loop_none f s free = rw (release-dropped s.sync free) refl

  loop_lem :
      (n f : ℕ) (s : FileState D)
      → IsFree s.sync
      → 0 < f
      → UsedBelow f s
      → ((g : ℕ) × (0 < g)
          × (g < f + n)
          × ((s.files g).ref ≡ 0)
          × UsedBelow g s
          × (alloc_loop n f (record s { sync = taken s.sync })
              ≡ ok g (with_file g (set_ref 1 (s.files g)) s)))
        ⊎ (UsedBelow (f + n) s
            × (alloc_loop n f (record s { sync = taken s.sync })
                ≡ ok 0 (record s { sync = dropped s.sync })))
  loop_lem zero f s free pos used =
      let e : f + 0 ≡ f = omega arith in
      inr (subst (λ k. UsedBelow k s) (sym e) used, loop_none f s free)
  loop_lem (suc n) f s free pos used = elim (Bool-cases ((s.files f).ref == 0)) [
    | inl z ↦
        let h = ==→eq (s.files f).ref 0 z in
        inl (f, pos, omega arith, h, used, loop_free n f s free h)
    | inr z ↦
        let h = ==→ne (s.files f).ref 0 z in
        let e : f + 1 + n ≡ f + suc n = omega arith in
        elim (loop_lem n (f + 1) s free (omega arith) (UsedBelow-next f s used h)) [
          | inl (g, lo, hi, none_, below, run) ↦
              inl (g, lo, omega (arith, hi), none_, below, loop_used n f s h ∙ run)
          | inr (all, run) ↦ inr (subst (λ k. UsedBelow k s) e all, loop_used n f s h ∙ run)
        ]
  ]

  alloc_run :
      (s : FileState D)
      → IsFree s.sync
      → filealloc s ≡ alloc_loop nfile 1 (record s { sync = taken s.sync })
  unfolding filealloc
  alloc_run s free = rw (acquire-taken s.sync free.unlocked) refl

-- filealloc, with the lock free. It takes the first file that is not in use, counts one reference to it
-- and changes no other file; where all 100 are in use it gives null and changes no file.
pub filealloc_lem :
    {D : Type 0} (s : FileState D)
    → IsFree s.sync
    → ((f : ℕ) × (0 < f)
        × (f < nfile + 1)
        × ((s.files f).ref ≡ 0)
        × UsedBelow f s
        × (filealloc s ≡ ok f (with_file f (set_ref 1 (s.files f)) s)))
      ⊎ (UsedBelow (nfile + 1) s × (filealloc s ≡ ok 0 (record s { sync = dropped s.sync })))
filealloc_lem s free =
    elim (loop_lem nfile 1 s free (omega arith) (λ g pos h. absurd (omega (arith, pos, h)))) [
      | inl (g, lo, hi, none_, below, run) ↦ inl (g, lo, hi, none_, below, alloc_run s free ∙ run)
      | inr (all, run) ↦ inr (all, alloc_run s free ∙ run)
    ]
