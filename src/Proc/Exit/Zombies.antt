-- ===== src/Proc/Exit/Zombies.antt =====
-- The walk over the zombie list in exit(): each zombie child goes to init, which is woken for it.
use fp_sisop20_b.Prelude.{
  ℕ, zero, suc, ◌<◌, ◌≤◌, ◌≡◌, ◌≢◌, refl, sym, ap, subst, ◌∙◌, inl, inr, Bool, true, false, ◌||◌,
  List, [], ◌∷◌, ◌++◌, arith, ◌==◌, ==_ne, ==→eq, ==→ne, ==_refl, if◌then◌else◌, Bool-cases, length,
}
use fp_sisop20_b.Run.{ok}
use fp_sisop20_b.StateList.{Ptr, Slot, max_priority}
use fp_sisop20_b.StateList.Chain.{head, Chain, Chain-next, has}
use fp_sisop20_b.StateList.Keep.{snoc-append}
use fp_sisop20_b.Proc.{Proc, Table}
use fp_sisop20_b.Proc.Invariant.{InTable, home, IsOrdered}
use fp_sisop20_b.Proc.Edits.{edited, edited_self, edited_ne, edited-trace, edited-IsOrdered}
use fp_sisop20_b.Proc.Sleep.{wakeup1}
use fp_sisop20_b.Proc.Sleep.Wakeup.{scanned, woken_queue, wakeup1_lem}
use fp_sisop20_b.Proc.Exit.{set_parent, orphan_zombies}
use fp_sisop20_b.Proc.Exit.Adopt.{
  adopt, adopt_child, adopt_other, adopt_twice, adopt-home, adopt-priority, scanned-adopt,
  scanned_twice, scanned-parent,
}

-- Some process of `xs` is a child of `me`.
abbrev pub any_child : (me : Ptr) → (Ptr → Proc) → List Ptr → Bool
any_child me procs [] = false
any_child me procs (x ∷ xs) = (procs x).parent == me || any_child me procs xs

-- What becomes of process `q` when the zombies `xs` are handed over.
abbrev pub handed : (me init : Ptr) → List Ptr → (Ptr → Proc) → Ptr → Proc
handed me init xs procs q =
    let p = if any_child me procs xs then scanned init (procs q) else procs q in
    if has q xs then adopt me init p else p

module _ (me init : Ptr) where
  zombies_null : (n : ℕ) (t : Table) → orphan_zombies (suc n) me init 0 t ≡ ok tt t
  unfolding orphan_zombies
  zombies_null n t = refl

  zombies_other :
      (n : ℕ) (x : Ptr) (t : Table)
      → x ≢ 0
      → ((t.procs x).parent == me) ≡ false
      → orphan_zombies (suc n) me init x t ≡ orphan_zombies n me init (t.lists.next x) t
  unfolding orphan_zombies
  zombies_other n x t ne h = rw (==_ne ne, h) refl

  zombies_child :
      (n : ℕ) (x : Ptr) (t t' : Table)
      → x ≢ 0
      → ((t.procs x).parent == me) ≡ true
      → wakeup1 init (edited t x (set_parent init)) ≡ ok tt t'
      → orphan_zombies (suc n) me init x t ≡ orphan_zombies n me init (t.lists.next x) t'
  unfolding orphan_zombies edited
  zombies_child n x t t' ne h run = rw (==_ne ne, h, run) refl

  -- What the walk over the zombies `xs` does.
  pub record Handed (queue : Slot → List Ptr) (xs : List Ptr) (t : Table) (queue' : Slot → List Ptr)
      (t' : Table) : Type 0 where
    pub ordered : IsOrdered queue' t'
    pub zombies : queue' Slot.zombie ≡ queue Slot.zombie
    pub procs : (q : Ptr) → InTable q → t'.procs q ≡ handed me init xs t.procs q
    pub trace : t'.trace ≡ t.trace

  woken-parent : (b : Bool) (q : Proc) → (if b then scanned init q else q).parent ≡ q.parent
  woken-parent true q = scanned-parent init q
  woken-parent false q = refl

  handed_other :
      (x : Ptr) (xs : List Ptr) (procs : Ptr → Proc) (q : Ptr)
      → ((procs x).parent == me) ≡ false
      → handed me init xs procs q ≡ handed me init (x ∷ xs) procs q
  handed_other x xs procs q h = elim (Bool-cases (q == x)) [
    | inr ne ↦ rw (h, ne) refl
    | inl is ↦
        let p : Proc = if any_child me procs xs then scanned init (procs q) else procs q in
        let own : (p.parent == me) ≡ false =
          ap (λ r. r == me) (woken-parent (any_child me procs xs) (procs q))
          ∙ subst (λ r. ((procs r).parent == me) ≡ false) (sym (==→eq q x is)) h in
        elim (Bool-cases (has q xs)) [
          | inl on ↦ rw (h, on, is) refl
          | inr off ↦ rw (h, off, is) (sym (adopt_other me init p own))
        ]
  ]

  -- Processes that have been woken stay so.
  handed_woken :
      (xs : List Ptr) (procs : Ptr → Proc) (q : Ptr) (p : Proc)
      → procs q ≡ scanned init p
      → handed me init xs procs q
        ≡ (if has q xs then adopt me init (scanned init p) else scanned init p)
  handed_woken xs procs q p e = elim (Bool-cases (any_child me procs xs)) [
    | inl on ↦ rw (on, e) (ap (λ r. if has q xs then adopt me init r else r) (scanned_twice init p))
    | inr off ↦ rw (off, e) refl
  ]

  handed_child :
      (x : Ptr) (xs : List Ptr) (procs procs' : Ptr → Proc) (q : Ptr)
      → me ≢ init
      → ((procs x).parent == me) ≡ true
      → procs' q ≡ scanned init (if q == x then adopt me init (procs q) else procs q)
      → handed me init xs procs' q ≡ handed me init (x ∷ xs) procs q
  handed_child x xs procs procs' q ne h e = elim (Bool-cases (q == x)) [
    | inr other ↦
        handed_woken xs procs' q (procs q)
          (e ∙ ap (λ b. scanned init (if b then adopt me init (procs q) else procs q)) other)
        ∙ rw (h, other) refl
    | inl is ↦
        handed_woken xs procs' q (adopt me init (procs q))
          (e ∙ ap (λ b. scanned init (if b then adopt me init (procs q) else procs q)) is)
        ∙ ap (λ r. if has q xs then adopt me init r else r) (scanned-adopt init me init (procs q))
        ∙ twice (has q xs) (scanned init (procs q))
        ∙ rw (h, is) refl
  ]
    where
      twice :
          (b : Bool) (p : Proc)
          → (if b then adopt me init (adopt me init p) else adopt me init p) ≡ adopt me init p
      twice true p = adopt_twice me init p ne
      twice false p = refl

  pub zombies_lem :
      (n : ℕ) (queue : Slot → List Ptr) (t : Table) (front xs : List Ptr)
      → me ≢ init
      → IsOrdered queue t
      → queue Slot.zombie ≡ front ++ xs
      → length xs < n
      → (queue' : Slot → List Ptr) × (t' : Table) × (orphan_zombies n me init (head xs) t
          ≡ ok tt t')
        × Handed queue xs t queue' t'
  zombies_lem zero queue t front xs ne inv e h = absurd (omega (arith, h))
  zombies_lem (suc n) queue t front [] ne inv e h = (
    queue,
    t,
    zombies_null n t,
    record { ordered = inv; zombies = refl; procs = λ q on. refl; trace = refl },
  )
  zombies_lem (suc n) queue t front (x ∷ xs) ne inv e h =
      let next =
        Chain-next t.lists.next (t.lists.head Slot.zombie) front x xs
          (subst (Chain t.lists.next (t.lists.head Slot.zombie)) e (inv.chain Slot.zombie)) in
      let e' = e ∙ sym (snoc-append front x xs) in
      elim (Bool-cases ((t.procs x).parent == me)) [
        | inr other ↦
            let (queue', t', run, w) =
              zombies_lem n queue t (front ++ x ∷ []) xs ne inv e' (omega (arith, h)) in
            (
              queue',
              t',
              zombies_other n x t next.1 other
                  ∙ ap (λ p. orphan_zombies n me init p t) next.0
                  ∙ run,
              record {
                ordered = w.ordered;
                zombies = w.zombies;
                procs = λ q on. w.procs q on ∙ handed_other x xs t.procs q other;
                trace = w.trace;
              },
            )
        | inl child ↦
            let f = set_parent init in
            let same = sym (adopt_child me init (t.procs x) child) in
            let inv1 =
              edited-IsOrdered queue t x f (ap home same ∙ adopt-home me init (t.procs x))
                (subst (λ m. m ≤ max_priority)
                  (sym (ap (λ (p : Proc). p.priority) same ∙ adopt-priority me init (t.procs x)))
                  (inv.bounded x))
                inv in
            let (t2, run2, inv2, is2, quiet2) = wakeup1_lem queue (edited t x f) init inv1 in
            let (queue', t', run, w) =
              zombies_lem n (woken_queue queue (edited t x f) init) t2 (front ++ x ∷ []) xs ne inv2
                e' (omega (arith, h)) in
            (
              queue',
              t',
              zombies_child n x t t2 next.1 child run2
                  ∙ ap (λ p. orphan_zombies n me init p t2) next.0
                  ∙ run,
              record {
                ordered = w.ordered;
                zombies = w.zombies;
                procs = λ q on.
                    w.procs q on
                    ∙ handed_child x xs t.procs t2.procs q ne child
                        (is2 q on ∙ ap (scanned init) (edited_at t x q child));
                trace = w.trace ∙ quiet2 ∙ edited-trace t x f;
              },
            )
      ]
    where
      edited_at :
          (t : Table) (x q : Ptr)
          → ((t.procs x).parent == me) ≡ true
          → (edited t x (set_parent init)).procs q
            ≡ (if q == x then adopt me init (t.procs q) else t.procs q)
      edited_at t x q child = elim (Bool-cases (q == x)) [
        | inl is ↦
            rw (==→eq q x is, ==_refl x)
              (edited_self t x (set_parent init) ∙ sym (adopt_child me init (t.procs x) child))
        | inr ne' ↦ rw ne' (edited_ne t x (set_parent init) q (==→ne q x ne'))
      ]
