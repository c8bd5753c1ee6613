-- ===== src/Proc/Exit/Adopt.antt =====
-- The walks in which exit() hands its children over to init.
use fp_sisop20_b.Prelude.{
  ℕ, zero, suc, ◌+◌, ◌<◌, ◌≤◌, ◌≡◌, ◌≢◌, refl, sym, ap, subst, fun_ext, ◌∙◌, inl, inr, Bool, true,
  false, ◌&&◌, List, [], ◌∷◌, ◌++◌, arith, ◌==◌, ==_ne, ==→eq, ==_refl, if◌then◌else◌, Bool-cases,
  length,
}
use fp_sisop20_b.Run.{ok}
use fp_sisop20_b.StateList.{Ptr, Slot, nproc, load_head, in_range}
use fp_sisop20_b.StateList.Chain.{Chain, has, has-append}
use fp_sisop20_b.Proc.{Proc, sleeping, Table, code, put, set_state}
use fp_sisop20_b.Proc.Invariant.{home}
use fp_sisop20_b.Proc.Sleep.Wakeup.{scanned}
use fp_sisop20_b.Proc.Exit.{set_parent, orphan_loop, orphan_lists}

-- What becomes of one process.
abbrev pub adopt : (me init : Ptr) → Proc → Proc
adopt me init q = if q.parent == me then set_parent init q else q

pub adopt_child :
    (me init : Ptr) (q : Proc) → (q.parent == me) ≡ true → adopt me init q ≡ set_parent init q
adopt_child me init q h = rw h refl

pub adopt_other : (me init : Ptr) (q : Proc) → (q.parent == me) ≡ false → adopt me init q ≡ q
adopt_other me init q h = rw h refl

set_parent-parent : (init : Ptr) (q : Proc) → (set_parent init q).parent ≡ init
unfolding set_parent
set_parent-parent init q = refl

pub adopt_twice :
    (me init : Ptr) (q : Proc) → me ≢ init → adopt me init (adopt me init q) ≡ adopt me init q
adopt_twice me init q ne = elim (Bool-cases (q.parent == me)) [
  | inl is ↦
      subst (λ r. adopt me init r ≡ r) (sym (adopt_child me init q is))
        (adopt_other me init (set_parent init q)
          (ap (λ p. p == me) (set_parent-parent init q) ∙ ==_ne (λ e. ne (sym e))))
  | inr other ↦ ap (adopt me init) (adopt_other me init q other)
]

pub adopt-home : (me init : Ptr) (q : Proc) → home (adopt me init q) ≡ home q
unfolding set_parent
adopt-home me init q = elim (Bool-cases (q.parent == me)) [
  | inl is ↦ rw is refl
  | inr other ↦ rw other refl
]

pub adopt-priority : (me init : Ptr) (q : Proc) → (adopt me init q).priority ≡ q.priority
unfolding set_parent
adopt-priority me init q = elim (Bool-cases (q.parent == me)) [
  | inl is ↦ rw is refl
  | inr other ↦ rw other refl
]

pub scanned-adopt :
    (chan me init : Ptr) (q : Proc)
    → scanned chan (adopt me init q) ≡ adopt me init (scanned chan q)
unfolding set_parent set_state
scanned-adopt chan me init q = elim (Bool-cases (q.parent == me)) [
  | inl is ↦ elim (Bool-cases (code q.state == code sleeping && q.chan == chan)) [
    | inl on ↦ rw (is, on, is) refl
    | inr off ↦ rw (is, off, is) refl
  ]
  | inr other ↦ elim (Bool-cases (code q.state == code sleeping && q.chan == chan)) [
    | inl on ↦ rw (other, on, other) refl
    | inr off ↦ rw (other, off, other) refl
  ]
]

pub scanned_twice : (chan : Ptr) (q : Proc) → scanned chan (scanned chan q) ≡ scanned chan q
unfolding set_state
scanned_twice chan q = elim (Bool-cases (code q.state == code sleeping && q.chan == chan)) [
  | inl on ↦ rw on refl
  | inr off ↦ rw (off, off) refl
]

pub scanned-parent : (chan : Ptr) (q : Proc) → (scanned chan q).parent ≡ q.parent
unfolding set_state
scanned-parent chan q = elim (Bool-cases (code q.state == code sleeping && q.chan == chan)) [
  | inl on ↦ rw on refl
  | inr off ↦ rw off refl
]

-- The processes after a walk over `xs`.
abbrev pub swept : (me init : Ptr) → List Ptr → (Ptr → Proc) → Ptr → Proc
swept me init xs procs q = if has q xs then adopt me init (procs q) else procs q

-- The processes of several lists.
abbrev pub joined : (Slot → List Ptr) → List Slot → List Ptr
joined queue [] = []
joined queue (k ∷ ks) = queue k ++ joined queue ks

abbrev pub all_in_range : List Slot → Bool
all_in_range [] = true
all_in_range (k ∷ ks) = in_range k && all_in_range ks

module _ (me init : Ptr) where
  adopt_one : Ptr → (Ptr → Proc) → Ptr → Proc
  adopt_one x procs =
      if (procs x).parent == me then put procs x (set_parent init (procs x)) else procs

  orphan_loop_step :
      (n : ℕ) (x : Ptr) (t : Table)
      → x ≢ 0
      → orphan_loop (suc n) me init x t
        ≡ orphan_loop n me init (t.lists.next x) (record t { procs = adopt_one x t.procs })
  unfolding orphan_loop adopt_one
  orphan_loop_step n x t ne = elim (Bool-cases ((t.procs x).parent == me)) [
    | inl is ↦ rw (==_ne ne, is) refl
    | inr other ↦ rw (==_ne ne, other) refl
  ]

  adopt_one_lem :
      (x : Ptr) (procs : Ptr → Proc) (q : Ptr)
      → adopt_one x procs q ≡ (if q == x then adopt me init (procs q) else procs q)
  unfolding adopt_one put
  adopt_one_lem x procs q = elim (Bool-cases (q == x)) [
    | inl is ↦ elim (Bool-cases ((procs x).parent == me)) [
      | inl child ↦ rw (==→eq q x is, child, ==_refl x) refl
      | inr other ↦ rw (==→eq q x is, other, ==_refl x) refl
    ]
    | inr ne ↦ elim (Bool-cases ((procs x).parent == me)) [
      | inl child ↦ rw (child, ne) refl
      | inr other ↦ rw (other, ne) refl
    ]
  ]

  swept-adopt_one :
      (x : Ptr) (xs : List Ptr) (procs : Ptr → Proc)
      → me ≢ init
      → swept me init xs (adopt_one x procs) ≡ swept me init (x ∷ xs) procs
  swept-adopt_one x xs procs ne = fun_ext (λ q. at q)
    where
      at : (q : Ptr) → swept me init xs (adopt_one x procs) q ≡ swept me init (x ∷ xs) procs q
      at q = elim (Bool-cases (q == x)) [
        | inl is ↦ elim (Bool-cases (has q xs)) [
          | inl on ↦ rw (adopt_one_lem x procs q, is, on) (adopt_twice me init (procs q) ne)
          | inr off ↦ rw (adopt_one_lem x procs q, is, off) refl
        ]
        | inr other ↦ elim (Bool-cases (has q xs)) [
          | inl on ↦ rw (adopt_one_lem x procs q, other, on) refl
          | inr off ↦ rw (adopt_one_lem x procs q, other, off) refl
        ]
      ]

  orphan_loop_null : (n : ℕ) (t : Table) → orphan_loop (suc n) me init 0 t ≡ ok tt t
  unfolding orphan_loop
  orphan_loop_null n t = refl

  orphan_loop_lem :
      (n : ℕ) (p : Ptr) (xs : List Ptr) (t : Table)
      → me ≢ init
      → Chain t.lists.next p xs
      → length xs < n
      → orphan_loop n me init p t ≡ ok tt (record t { procs = swept me init xs t.procs })
  orphan_loop_lem zero p xs t ne c h = absurd (omega (arith, h))
  orphan_loop_lem (suc n) p [] t ne c h =
      ap (λ r. orphan_loop (suc n) me init r t) c ∙ orphan_loop_null n t
  orphan_loop_lem (suc n) p (x ∷ xs) t ne (e, ne0, c) h =
      ap (λ r. orphan_loop (suc n) me init r t) e
      ∙ orphan_loop_step n x t ne0
      ∙ orphan_loop_lem n (t.lists.next x) xs (record t { procs = adopt_one x t.procs }) ne c
          (omega (arith, h))
      ∙ ap (λ f. ok tt (record t { procs = f })) (swept-adopt_one x xs t.procs ne)

  swept-swept :
      (xs ys : List Ptr) (procs : Ptr → Proc)
      → me ≢ init
      → swept me init ys (swept me init xs procs) ≡ swept me init (xs ++ ys) procs
  swept-swept xs ys procs ne = fun_ext (λ q. at q)
    where
      at :
          (q : Ptr) → swept me init ys (swept me init xs procs) q ≡ swept me init (xs ++ ys) procs q
      at q = elim (Bool-cases (has q xs)) [
        | inl on ↦ elim (Bool-cases (has q ys)) [
          | inl on' ↦ rw (has-append q xs ys, on, on') (adopt_twice me init (procs q) ne)
          | inr off' ↦ rw (has-append q xs ys, on, off') refl
        ]
        | inr off ↦ elim (Bool-cases (has q ys)) [
          | inl on' ↦ rw (has-append q xs ys, off, on') refl
          | inr off' ↦ rw (has-append q xs ys, off, off') refl
        ]
      ]

  orphan_lists_step :
      (k : Slot) (ks : List Slot) (t t' : Table)
      → in_range k ≡ true
      → orphan_loop (nproc + 1) me init (t.lists.head k) t ≡ ok tt t'
      → orphan_lists (k ∷ ks) me init t ≡ orphan_lists ks me init t'
  unfolding orphan_lists load_head
  orphan_lists_step k ks t t' range run = rw (range, run) refl

  orphan_lists_none : (t : Table) → orphan_lists [] me init t ≡ ok tt t
  unfolding orphan_lists
  orphan_lists_none t = refl

  pub orphan_lists_lem :
      (queue : Slot → List Ptr) (ks : List Slot) (t : Table)
      → me ≢ init
      → ((k : Slot) → Chain t.lists.next (t.lists.head k) (queue k))
      → ((k : Slot) → length (queue k) ≤ nproc)
      → all_in_range ks ≡ true
      → orphan_lists ks me init t
        ≡ ok tt (record t { procs = swept me init (joined queue ks) t.procs })
  orphan_lists_lem queue [] t ne chains short range = orphan_lists_none t
  orphan_lists_lem queue (k ∷ ks) t ne chains short range =
      orphan_lists_step k ks t (record t { procs = swept me init (queue k) t.procs })
        (ground (arith, range))
        (orphan_loop_lem (nproc + 1) (t.lists.head k) (queue k) t ne (chains k) (below (short k)))
      ∙ orphan_lists_lem queue ks (record t { procs = swept me init (queue k) t.procs }) ne chains
          short (ground (arith, range))
      ∙ ap (λ f. ok tt (record t { procs = f }))
          (swept-swept (queue k) (joined queue ks) t.procs ne)
    where
      below : {a : ℕ} → a ≤ nproc → a < nproc + 1
      below h = omega (arith, h)
