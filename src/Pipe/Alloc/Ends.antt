-- ===== src/Pipe/Alloc/Ends.antt =====
-- The two ends of a pipe that pipealloc makes, and its way back where something is missing.
use fp_sisop20_b.Prelude.{
  Bool, not, ℕ, ◌+◌, ◌<◌, ◌≡◌, ◌≢◌, refl, sym, ap, fun_ext, ◌∙◌, inl, inr, true, false, none, some,
  [], ◌++◌, ◌==◌, ==→eq, ==_ne, Bool-cases, update,
}
use fp_sisop20_b.Run.{ok}
use fp_sisop20_b.Spinlock.Critical.{IsFree}
use fp_sisop20_b.File.{
  nfile, fd_none, fd_pipe, File, FileState, closed, set_ref, filealloc, fileclose,
}
use fp_sisop20_b.File.Refs.{with_file}
use fp_sisop20_b.File.Close.{given_back, fileclose_last, edit_twice, update_same}
use fp_sisop20_b.Pipe.{new_pipe}
use fp_sisop20_b.Pipe.Alloc.{World, unheld, as_end, init_pipe, bad, pipealloc}

abbrev pub InFiles : ℕ → Type 0
InFiles f = (0 < f) × (f < nfile + 1)

-- A file that is one end of the pipe at `page`, with one reference.
abbrev pub end_of : (page : ℕ) (writable : Bool) → File → File
end_of page w q = record q { ref = 1; kind = fd_pipe; readable = not w; writable = w; pipe = page }

pub end_lem : (page : ℕ) (w : Bool) (q : File) → as_end page w (set_ref 1 q) ≡ end_of page w q
unfolding as_end
end_lem page w q = refl

-- Two files taken and given back.
pub both_back :
    (files : ℕ → File) (f g : ℕ) (a b : File)
    → update (update (update (update files f a) g b) f (files f)) g (files g) ≡ files
both_back files f g a b = fun_ext (λ h. at h)
  where
    at :
        (h : ℕ)
        → update (update (update (update files f a) g b) f (files f)) g (files g) h ≡ files h
    at h = elim (Bool-cases (h == g)) [
      | inl is ↦ rw is (ap files (sym (==→eq h g is)))
      | inr ne ↦ elim (Bool-cases (h == f)) [
        | inl is ↦ rw (ne, is) (ap files (sym (==→eq h f is)))
        | inr ne' ↦ rw (ne, ne') refl
      ]
    ]

pub one_back : (files : ℕ → File) (f : ℕ) (a : File) → update (update files f a) f (files f) ≡ files
one_back files f a = edit_twice files f a (λ _. files f) ∙ update_same files f

module _ {D : Type 0} where
  -- A file that is not in use has no kind, as filealloc() expects.
  abbrev pub Cleared : FileState D → Type 0
  Cleared t = (f : ℕ) → (t.files f).ref ≡ 0 → (t.files f).kind ≡ fd_none

  abbrev pub AtMostOne : FileState D → Type 0
  AtMostOne t =
      (f g : ℕ) → InFiles f → InFiles g → (t.files f).ref ≡ 0 → (t.files g).ref ≡ 0 → f ≡ g

  -- Nothing is left of the call.
  pub record Undone (s s' : World D) : Type 0 where
    pub files : s'.table.files ≡ s.table.files
    pub calls : s'.table.calls ≡ s.table.calls
    pub free : IsFree s'.table.sync
    pub pipes : s'.pipes ≡ s.pipes
    pub freed : s'.freed ≡ s.freed

  pub record Made (page : ℕ) (s s' : World D) (f0 f1 : ℕ) : Type 0 where
    pub places : InFiles f0 × InFiles f1 × (f0 ≢ f1)
    pub unused : ((s.table.files f0).ref ≡ 0) × ((s.table.files f1).ref ≡ 0)
    pub reads : s'.table.files f0 ≡ end_of page false (s.table.files f0)
    pub writes : s'.table.files f1 ≡ end_of page true (s.table.files f1)
    pub others : (h : ℕ) → h ≢ f0 → h ≢ f1 → s'.table.files h ≡ s.table.files h
    pub pipe : s'.pipes page ≡ new_pipe (s.pipes page).bytes
    pub other_pipes : (p : ℕ) → p ≢ page → s'.pipes p ≡ s.pipes p
    pub lock : s'.locks page ≡ unheld
    pub free : IsFree s'.table.sync

  -- Closing a file that was just taken.
  pub undo :
      (f : ℕ) (q : File) (t : FileState D)
      → IsFree t.sync
      → t.files f ≡ set_ref 1 q
      → q.ref ≡ 0
      → q.kind ≡ fd_none
      → fileclose f t ≡ ok tt (with_file f q t)
  undo f q t free e r k =
      fileclose_last f t free (rw e refl) (rw e refl)
      ∙ ap (λ x. ok tt (record (with_file f (closed x) t) { calls = given_back x ++ t.calls })) e
      ∙ ap (λ cs. ok tt (record (with_file f (closed (set_ref 1 q)) t) { calls = cs ++ t.calls }))
          nothing
      ∙ ap (λ x. ok tt (with_file f x t)) back
    where
      nothing : given_back (set_ref 1 q) ≡ []
      nothing = rw k refl

      back : closed (set_ref 1 q) ≡ q
      back =
          ap (λ i. record q { ref = i; kind = fd_none }) (sym r)
          ∙ ap (λ i. record q { kind = i }) (sym k)

  module _ (page : ℕ) (s : World D) where
    -- The state with both ends.
    abbrev pub made : ℕ → ℕ → FileState D → World D
    made f g t = record {
      table = record t {
        files =
            let files' = update t.files f (as_end page false (t.files f)) in
            update files' g (as_end page true (files' g));
      };
      pipes = update s.pipes page (new_pipe (s.pipes page).bytes);
      locks = update s.locks page unheld;
      freed = s.freed;
    }

    pub none_run :
        (t : FileState D)
        → filealloc s.table ≡ ok 0 t
        → pipealloc page s ≡ ok none (record s { table = t })
    unfolding pipealloc bad
    none_run t run = rw run refl

    pub one_run :
        (f : ℕ) (t t' u : FileState D)
        → f ≢ 0
        → filealloc s.table ≡ ok f t
        → filealloc t ≡ ok 0 t'
        → fileclose f t' ≡ ok tt u
        → pipealloc page s ≡ ok none (record s { table = u })
    unfolding pipealloc bad
    one_run f t t' u ne run run' back = rw (run, ==_ne ne, run', back) refl

    pub page_run :
        (f g : ℕ) (t t' u u' : FileState D)
        → f ≢ 0
        → g ≢ 0
        → filealloc s.table ≡ ok f t
        → filealloc t ≡ ok g t'
        → page ≡ 0
        → fileclose f t' ≡ ok tt u
        → fileclose g u ≡ ok tt u'
        → pipealloc page s ≡ ok none (record s { table = u' })
    unfolding pipealloc bad
    page_run f g t t' u u' nf ng run run' e back back' =
        rw (run, ==_ne nf, run', ==_ne ng, e, back, back') refl

    pub made_run :
        (f g : ℕ) (t t' : FileState D)
        → f ≢ 0
        → g ≢ 0
        → page ≢ 0
        → filealloc s.table ≡ ok f t
        → filealloc t ≡ ok g t'
        → pipealloc page s ≡ ok (some (f, g)) (made f g t')
    unfolding pipealloc init_pipe
    made_run f g t t' nf ng ne run run' = rw (run, ==_ne nf, run', ==_ne ng, ==_ne ne) refl
