-- ===== src/Pipe/Alloc/Outcome.antt =====
-- How pipealloc ends.
use fp_sisop20_b.Prelude.{
  ℕ, ◌+◌, ◌≡◌, ◌≢◌, refl, sym, ap, subst, ◌∙◌, ◌⊎◌, inl, inr, true, false, none, some, arith, ◌==◌,
  ==→eq, ==→ne, Bool-cases, update, update_self, update_ne,
}
use fp_sisop20_b.Run.{ok}
use fp_sisop20_b.Spinlock.Critical.{IsFree, dropped, dropped-IsFree}
use fp_sisop20_b.File.{nfile, File, FileState, set_ref, filealloc}
use fp_sisop20_b.File.Refs.{with_file, UsedBelow, filealloc_lem}
use fp_sisop20_b.Pipe.Alloc.{World, as_end, pipealloc}
use fp_sisop20_b.Pipe.Alloc.Ends.{
  end_lem, InFiles, Cleared, AtMostOne, Undone, Made, undo, both_back, one_back, none_run, one_run,
  page_run, made, made_run,
}

module _ {D : Type 0} (page : ℕ) (s : World D) (free : IsFree s.table.sync)
    (cleared : Cleared s.table) where
  abbrev one : FileState D → ℕ → FileState D
  one t f = with_file f (set_ref 1 (t.files f)) t

  none_left :
      UsedBelow (nfile + 1) s.table
      → filealloc s.table ≡ ok 0 (record (s.table) { sync = dropped s.table.sync })
      → (s' : World D) × (pipealloc page s ≡ ok none s') × Undone s s' × AtMostOne s.table
  none_left used run = (
    record s { table = record (s.table) { sync = dropped s.table.sync } },
    none_run page s _ run,
    record {
      files = refl;
      calls = refl;
      free = dropped-IsFree s.table.sync free;
      pipes = refl;
      freed = refl;
    },
    λ f g (lo, hi) in_g unused _. absurd (used f lo hi unused),
  )

  module _ (f : ℕ) (in_f : InFiles f) (unused : (s.table.files f).ref ≡ 0)
      (run : filealloc s.table ≡ ok f (one s.table f)) where
    abbrev t1 : FileState D
    t1 = one s.table f

    free1 : IsFree t1.sync
    free1 = dropped-IsFree s.table.sync free

    one_left :
        UsedBelow (nfile + 1) t1
        → filealloc t1 ≡ ok 0 (record t1 { sync = dropped t1.sync })
        → (s' : World D) × (pipealloc page s ≡ ok none s') × Undone s s' × AtMostOne s.table
    one_left used run' =
        let t2 : FileState D = record t1 { sync = dropped t1.sync } in
        let q = s.table.files f in
        let free2 = dropped-IsFree t1.sync free1 in
        let back =
          undo f q t2 free2 (update_self s.table.files f (set_ref 1 q)) unused (cleared f unused) in
        (
          record s { table = with_file f q t2 },
          one_run page s f t1 t2 (with_file f q t2) (λ z. omega (arith, z, in_f)) run run' back,
          record {
            files = one_back s.table.files f (set_ref 1 q);
            calls = refl;
            free = dropped-IsFree t2.sync free2;
            pipes = refl;
            freed = refl;
          },
          λ g h in_g in_h ug uh. only g in_g ug ∙ sym (only h in_h uh),
        )
      where
        only : (g : ℕ) → InFiles g → (s.table.files g).ref ≡ 0 → g ≡ f
        only g (lo, hi) u = elim (Bool-cases (g == f)) [
          | inl is ↦ ==→eq g f is
          | inr ne ↦ absurd (
              used g lo hi
                (ap (λ (q : File). q.ref) (update_ne s.table.files f _ (==→ne g f ne)) ∙ u))
        ]

    module _ (g : ℕ) (in_g : InFiles g) (unused' : (t1.files g).ref ≡ 0)
        (run' : filealloc t1 ≡ ok g (one t1 g)) where
      abbrev t2 : FileState D
      t2 = one t1 g

      free2 : IsFree t2.sync
      free2 = dropped-IsFree t1.sync free1

      apart : g ≢ f
      apart e =
          let r =
            ap (λ (q : File). q.ref)
              (sym (update_self s.table.files f (set_ref 1 (s.table.files f)))) in
          let z = subst (λ h. (t1.files h).ref ≡ 0) e unused' in omega (arith, r ∙ z)

      same_g : t1.files g ≡ s.table.files g
      same_g = update_ne s.table.files f _ apart

      unused_g : (s.table.files g).ref ≡ 0
      unused_g = ap (λ (q : File). q.ref) (sym same_g) ∙ unused'

      no_page : page ≡ 0 → (s' : World D) × (pipealloc page s ≡ ok none s') × Undone s s'
      no_page e =
          let q = s.table.files f in
          let q' = s.table.files g in
          let at_f : t2.files f ≡ set_ref 1 q =
            update_ne t1.files g _ (λ z. apart (sym z))
            ∙ update_self s.table.files f (set_ref 1 q) in
          let back = undo f q t2 free2 at_f unused (cleared f unused) in
          let u = with_file f q t2 in
          let free3 = dropped-IsFree t2.sync free2 in
          let at_g : u.files g ≡ set_ref 1 q' =
            update_ne t2.files f q apart ∙ update_self t1.files g _ ∙ ap (set_ref 1) same_g in
          let back' = undo g q' u free3 at_g unused_g (cleared g unused_g) in
          (
            record s { table = with_file g q' u },
            page_run page s f g t1 t2 u (with_file g q' u) (λ z. omega (arith, z, in_f))
                (λ z. omega (arith, z, in_g)) run run' e back back',
            record {
              files = both_back s.table.files f g _ _;
              calls = refl;
              free = dropped-IsFree u.sync free3;
              pipes = refl;
              freed = refl;
            },
          )

      both_ends :
          page ≢ 0 → (s' : World D) × (pipealloc page s ≡ ok (some (f, g)) s') × Made page s s' f g
      both_ends ne =
          let at_f : t2.files f ≡ set_ref 1 (s.table.files f) =
            update_ne t1.files g _ (λ z. apart (sym z)) ∙ update_self s.table.files f _ in
          let ends = update t2.files f (as_end page false (t2.files f)) in
          (
            made page s f g t2,
            made_run page s f g t1 t2 (λ z. omega (arith, z, in_f)) (λ z. omega (arith, z, in_g)) ne
                run run',
            record {
              places = (in_f, in_g, λ e. apart (sym e));
              unused = (unused, unused_g);
              reads =
                  update_ne ends g _ (λ z. apart (sym z))
                  ∙ update_self t2.files f _
                  ∙ ap (as_end page false) at_f
                  ∙ end_lem page false (s.table.files f);
              writes =
                  update_self ends g _
                  ∙ ap (as_end page true) (
                      update_ne t2.files f _ apart
                      ∙ update_self t1.files g _
                      ∙ ap (set_ref 1) same_g)
                  ∙ end_lem page true (s.table.files g);
              others = λ h nf ng.
                  update_ne ends g _ ng
                  ∙ update_ne t2.files f _ nf
                  ∙ update_ne t1.files g _ ng
                  ∙ update_ne s.table.files f _ nf;
              pipe = update_self s.pipes page _;
              other_pipes = λ p np. update_ne s.pipes page _ np;
              lock = update_self s.locks page _;
              free = free2;
            },
          )

abbrev pub Result : {D : Type 0} → ℕ → World D → Type 0
Result {D} page s =
    ((s' : World D) × (pipealloc page s ≡ ok none s')
      × Undone s s'
      × ((page ≡ 0) ⊎ AtMostOne s.table))
    ⊎ ((page ≢ 0)
        × ((f0 : ℕ) × (f1 : ℕ) × (s' : World D) × (pipealloc page s ≡ ok (some (f0, f1)) s')
            × Made page s s' f0 f1))

-- pipealloc, with the lock of the file table free and the unused files without a kind. Either it fails:
-- there are not two unused files or no page, every file and pipe is as before, nothing is closed outside
-- or freed. Or it gives the two ends of a new empty pipe, open at both: two different files that were
-- unused, one to read and one to write, each with one reference; no other file or pipe has changed.
pub pipealloc_lem :
    {D : Type 0} (page : ℕ) (s : World D) → IsFree s.table.sync → Cleared s.table → Result page s
pipealloc_lem {D} page s free cleared = elim (filealloc_lem s.table free) [
  | inr (used, run) ↦
      let (s', run', u, few) = none_left page s free cleared used run in inl (s', run', u, inr few)
  | inl (f, lo, hi, unused, below, run) ↦ second f (lo, hi) unused run
]
  where
    second :
        (f : ℕ)
        → InFiles f
        → (s.table.files f).ref ≡ 0
        → filealloc s.table ≡ ok f (with_file f (set_ref 1 (s.table.files f)) s.table)
        → Result page s
    second f in_f unused run =
        elim (filealloc_lem (t1 page s free cleared f in_f unused run)
          (free1 page s free cleared f in_f unused run)) [
            | inr (used, run') ↦
                let (s', run2, u, few) = one_left page s free cleared f in_f unused run used run' in
                inl (s', run2, u, inr few)
            | inl (g, lo, hi, unused', below, run') ↦ elim (Bool-cases (page == 0)) [
              | inl none_ ↦
                  let e = ==→eq page 0 none_ in
                  let (s', run2, u) =
                    no_page page s free cleared f in_f unused run g (lo, hi) unused' run' e in
                  inl (s', run2, u, inl e)
              | inr some_ ↦
                  let ne = ==→ne page 0 some_ in
                  let (s', run2, m) =
                    both_ends page s free cleared f in_f unused run g (lo, hi) unused' run' ne in
                  inr (ne, (f, g, s', run2, m))
            ]
          ]
