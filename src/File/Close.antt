-- ===== src/File/Close.antt =====
-- filedup and fileclose, which count the references to an open file.
use fp_sisop20_b.Prelude.{
  ℕ, ◌+◌, ◌-◌, ◌%◌, ◌^◌, ◌<◌, ◌≡◌, refl, sym, ap, fun_ext, ◌⊎◌, inl, inr, true, false, List, [],
  ◌∷◌, ◌++◌, arith, ◌==◌, ==→eq, Bool-cases, update, update_self,
}
use fp_sisop20_b.Run.{ok, panics}
use fp_sisop20_b.Spinlock.Critical.{IsFree, acquire-taken, release-dropped}
use fp_sisop20_b.File.{
  FileType, fd_none, fd_pipe, fd_inode, File, Call, pipeclose, begin_op, end_op, iput, FileState,
  below_one, closed, set_ref, filedup, let_go, fileclose,
}
use fp_sisop20_b.File.Refs.{with_file}

-- What the last fileclose of a file gives back, latest call first.
abbrev pub given_back : File → List Call
given_back q = elim q.kind [
  | fd_none ↦ []
  | fd_pipe ↦ pipeclose q.pipe q.writable ∷ []
  | fd_inode ↦ end_op ∷ iput q.ip ∷ begin_op ∷ []
]

-- Two changes of one file, the second from what the first has left.
pub edit_twice :
    (files : ℕ → File) (f : ℕ) (a : File) (g : File → File)
    → update (update files f a) f (g (update files f a f)) ≡ update files f (g a)
edit_twice files f a g = fun_ext (λ h. rw (update_self files f a) (twice h))
  where
    twice : (h : ℕ) → update (update files f a) f (g a) h ≡ update files f (g a) h
    twice h = elim (Bool-cases (h == f)) [ inl is ↦ rw is refl | inr ne ↦ rw ne refl ]

pub update_same : (files : ℕ → File) (f : ℕ) → update files f (files f) ≡ files
update_same files f = fun_ext (λ h. same h)
  where
    same : (h : ℕ) → update files f (files f) h ≡ files h
    same h = elim (Bool-cases (h == f)) [
      | inl is ↦ rw is (ap files (sym (==→eq h f is)))
      | inr ne ↦ rw ne refl
    ]

module _ {D : Type 0} where
  pub filedup_run :
      (f : ℕ) (s : FileState D)
      → IsFree s.sync
      → below_one (s.files f).ref ≡ false
      → filedup f s ≡ ok f (with_file f (set_ref (((s.files f).ref + 1) % 2 ^ 32) (s.files f)) s)
  unfolding filedup
  filedup_run f s free good =
      rw (acquire-taken s.sync free.unlocked, good, release-dropped s.sync free) refl

  pub fileclose_bad :
      (f : ℕ) (s : FileState D)
      → IsFree s.sync
      → below_one (s.files f).ref ≡ true
      → fileclose f s ≡ panics "fileclose"
  unfolding fileclose
  fileclose_bad f s free bad = rw (acquire-taken s.sync free.unlocked, bad) refl

  pub fileclose_more :
      (f : ℕ) (s : FileState D)
      → IsFree s.sync
      → below_one (s.files f).ref ≡ false
      → below_one ((s.files f).ref - 1) ≡ false
      → fileclose f s ≡ ok tt (with_file f (set_ref ((s.files f).ref - 1) (s.files f)) s)
  unfolding fileclose
  fileclose_more f s free good more =
      rw
        (
          acquire-taken s.sync free.unlocked,
          good,
          update_self s.files f (set_ref ((s.files f).ref - 1) (s.files f)),
          more,
          release-dropped s.sync free,
        )
        refl

  let_go_run :
      (q : File) (k : FileType) (s : FileState D)
      → q.kind ≡ k
      → let_go k q s ≡ ok tt (record s { calls = given_back q ++ s.calls })
  unfolding let_go
  let_go_run q fd_none s e = rw e refl
  let_go_run q fd_pipe s e = rw e refl
  let_go_run q fd_inode s e = rw e refl

  pub fileclose_last :
      (f : ℕ) (s : FileState D)
      → IsFree s.sync
      → below_one (s.files f).ref ≡ false
      → below_one ((s.files f).ref - 1) ≡ true
      → fileclose f s
        ≡ ok tt (record (with_file f (closed (s.files f)) s) {
          calls = given_back (s.files f) ++ s.calls;
        })
  unfolding fileclose
  fileclose_last f s free good last =
      let q = set_ref ((s.files f).ref - 1) (s.files f) in
      rw
        (
          acquire-taken s.sync free.unlocked,
          good,
          update_self s.files f q,
          last,
          edit_twice s.files f q closed,
          release-dropped s.sync free,
        )
        (let_go_run q (s.files f).kind (with_file f (closed q) s) refl)

-- fileclose, with the lock free, in its three cases. Without a reference it panics. Where another reference
-- is left it only counts down. With the last one the file is free again, and what stands behind it is given
-- back: the end of a pipe to pipeclose, an inode to iput inside a transaction.
pub fileclose_lem :
    {D : Type 0} (f : ℕ) (s : FileState D)
    → IsFree s.sync
    → ((below_one (s.files f).ref ≡ true) × (fileclose f s ≡ panics "fileclose"))
      ⊎ ((1 < (s.files f).ref)
          × (fileclose f s ≡ ok tt (with_file f (set_ref ((s.files f).ref - 1) (s.files f)) s)))
      ⊎ (((s.files f).ref ≡ 1)
          × (fileclose f s
              ≡ ok tt (record (with_file f (closed (s.files f)) s) {
                calls = given_back (s.files f) ++ s.calls;
              })))
fileclose_lem f s free = elim (Bool-cases (below_one (s.files f).ref)) [
  | inl bad ↦ inl (bad, fileclose_bad f s free bad)
  | inr good ↦ elim (Bool-cases (below_one ((s.files f).ref - 1))) [
    | inl last ↦ inr (inr (ground arith, fileclose_last f s free good last))
    | inr more ↦ inr (inl (ground arith, fileclose_more f s free good more))
  ]
]
