-- ===== src/Proc/Alloc/Result.antt =====
-- What allocproc() comes back with.
use fp_sisop20_b.Prelude.{
  ℕ, ◌≡◌, ◌≢◌, refl, sym, ap, ap₂, ◌+◌, subst, ◌∙◌, ◌⊎◌, inl, inr, true, List, [], ◌∷◌, arith, ◌==◌,
  ==→eq, ==→ne, Bool-cases,
}
use fp_sisop20_b.Run.{ok}
use fp_sisop20_b.Spinlock.Critical.{IsFree, dropped}
use fp_sisop20_b.StateList.{Ptr, Slot}
use fp_sisop20_b.StateList.Chain.{has, head, Chain-head}
use fp_sisop20_b.Proc.{Proc, unused, embryo, forkret, trapret, State, set_state}
use fp_sisop20_b.Proc.Invariant.{home, IsOrdered}
use fp_sisop20_b.Proc.Homes.{home-free}
use fp_sisop20_b.Proc.Requeue.{stacked}
use fp_sisop20_b.Proc.Edits.{edited, edited_self, edited_ne, edited-trace, edited-IsOrdered}
use fp_sisop20_b.Proc.Alloc.{allocproc, set_pid, set_kstack, fresh}
use fp_sisop20_b.Proc.Alloc.Hatch.{hatch_lem, unhatch_lem}
use fp_sisop20_b.Proc.Alloc.Allocproc.{
  numbered, paged, none_run, full_run, some_run, restored, numbered_embryo, IsNext, Numbered,
  paged_self, paged_ne, paged-trace, paged-IsOrdered,
}

-- The free list is empty.
pub record NoProc (queue : Slot → List Ptr) (page : ℕ) (s : State) : Type 0 where
  pub empty : queue Slot.free ≡ []
  pub run : allocproc page s ≡ ok 0 (record s { sync = dropped s.sync })

-- There is no page for the stack of process `p`: it is back on the free list, with its pid spent.
pub record NoStack (queue : Slot → List Ptr) (page : ℕ) (s : State) (p : Ptr) (rest : List Ptr)
    (s' : State) : Type 0 where
  pub no_page : page ≡ 0
  pub is_next : IsNext queue s p rest
  pub run : allocproc page s ≡ ok 0 s'
  pub ordered : IsOrdered queue s'.table
  pub after : Numbered s p (set_state unused (numbered_embryo s page (s.procs p))) s'

-- The process that allocproc() sets up: its trap frame of 76 bytes at the top of the page of its stack,
-- below that the return to trapret, and below that a context that starts in forkret.
abbrev pub newborn : (ticks page pid : ℕ) → Proc → Proc
newborn ticks page pid q = record q {
  state = embryo;
  pid = pid;
  kstack = page;
  tf_at = page + 4020;
  return_to = trapret;
  context_at = page + 3996;
  context = record { edi = 0; esi = 0; ebx = 0; ebp = 0; eip = forkret };
  start_ticks = ticks;
  cpu_ticks_total = 0;
  cpu_ticks_in = 0;
  priority = 0;
  budget = 120;
}

fresh-newborn :
    (s : State) (page : ℕ) (q : Proc)
    → fresh s.ticks (numbered_embryo s page q) ≡ newborn s.ticks page s.nextpid q
unfolding fresh set_kstack set_pid set_state
fresh-newborn s page q =
    ap₂ (λ a b. record (newborn s.ticks page s.nextpid q) { tf_at = a; context_at = b })
      (omega arith) (omega arith)

-- Process `p` is the new embryo.
pub record Allocated (queue : Slot → List Ptr) (page : ℕ) (s : State) (p : Ptr) (rest : List Ptr)
    (s' : State) : Type 0 where
  pub a_page : page ≢ 0
  pub is_next : IsNext queue s p rest
  pub run : allocproc page s ≡ ok p s'
  pub ordered : IsOrdered (stacked queue p Slot.free Slot.embryo) s'.table
  pub after : Numbered s p (fresh s.ticks (numbered_embryo s page (s.procs p))) s'
  pub set_up : s'.procs p ≡ newborn s.ticks page s.nextpid (s.procs p)

abbrev pub Outcome : (Slot → List Ptr) → ℕ → State → Type 0
Outcome queue page s =
    NoProc queue page s
    ⊎ ((p : Ptr) × (rest : List Ptr) × (s' : State) × NoStack queue page s p rest s')
    ⊎ ((p : Ptr) × (rest : List Ptr) × (s' : State) × Allocated queue page s p rest s')

pub numbered-state : (s : State) (page : ℕ) (q : Proc) → (numbered_embryo s page q).state ≡ embryo
unfolding set_kstack set_pid set_state
numbered-state s page q = refl

fresh-home : (ticks : ℕ) (q : Proc) → q.state ≡ embryo → home (fresh ticks q) ≡ home q
unfolding fresh
fresh-home ticks q e = rw e refl

pub fresh-priority : (ticks : ℕ) (q : Proc) → (fresh ticks q).priority ≡ 0
unfolding fresh
fresh-priority ticks q = refl

module _ (queue : Slot → List Ptr) (s : State) (inv : IsOrdered queue s.table) (f : IsFree s.sync)
    (p : Ptr) (rest : List Ptr) (e : queue Slot.free ≡ p ∷ rest) where
  next : IsNext queue s p rest
  next =
      let on : has p (queue Slot.free) ≡ true = rw e (ground arith) in
      record {
        is_first = e;
        in_table = inv.within Slot.free p on;
        is_unused = home-free (s.procs p) (inv.at_home Slot.free p on);
      }

  at_head : s.lists.head Slot.free ≡ p
  at_head =
      Chain-head s.lists.next (s.lists.head Slot.free) (queue Slot.free) (inv.chain Slot.free)
      ∙ ap head e

  no_stack : (s' : State) × NoStack queue 0 s p rest s'
  no_stack =
      let (t, run, w, quiet) = hatch_lem queue s.table p inv next.in_table next.is_unused in
      let self = paged_self queue s p 0 t next.in_table w in
      let (t', run', w', quiet') =
        unhatch_lem (stacked queue p Slot.free Slot.embryo) (paged s.nextpid 0 t p) p
          (paged-IsOrdered queue s p 0 t next.in_table w) next.in_table
          (rw self (numbered-state s 0 (s.procs p))) in
      (
        numbered s t',
        record {
          no_page = refl;
          is_next = next;
          run = full_run s p t t' f at_head (λ z. omega (arith, next.in_table)) run run';
          ordered = subst (λ k. IsOrdered k t') (restored queue p rest e) w'.ordered;
          after = record {
            self = w'.self ∙ ap (set_state unused) self;
            others = λ r ne. w'.same r ne ∙ paged_ne queue s p 0 t next.in_table w r ne;
            trace = quiet' ∙ paged-trace queue s p 0 t next.in_table w ∙ quiet;
            nextpid = refl;
            sync = refl;
            current = refl;
            timer = refl;
          };
        },
      )

  allocated : (page : ℕ) → page ≢ 0 → (s' : State) × Allocated queue page s p rest s'
  allocated page ne =
      let (t, run, w, quiet) = hatch_lem queue s.table p inv next.in_table next.is_unused in
      let self = paged_self queue s p page t next.in_table w in
      let t' = paged s.nextpid page t p in
      let st : (t'.procs p).state ≡ embryo = rw self (numbered-state s page (s.procs p)) in
      (
        numbered s (edited t' p (fresh s.ticks)),
        record {
          a_page = ne;
          is_next = next;
          run = some_run page s p t f at_head (λ z. omega (arith, next.in_table)) ne run;
          ordered =
              edited-IsOrdered _ t' p (fresh s.ticks) (fresh-home s.ticks (t'.procs p) st)
                (omega (arith, fresh-priority s.ticks (t'.procs p)))
                (paged-IsOrdered queue s p page t next.in_table w);
          after = record {
            self = edited_self t' p (fresh s.ticks) ∙ ap (fresh s.ticks) self;
            others = λ r ne'.
                edited_ne t' p (fresh s.ticks) r ne'
                ∙ paged_ne queue s p page t next.in_table w r ne';
            trace =
                edited-trace t' p (fresh s.ticks)
                ∙ paged-trace queue s p page t next.in_table w
                ∙ quiet;
            nextpid = refl;
            sync = refl;
            current = refl;
            timer = refl;
          };
          set_up =
              edited_self t' p (fresh s.ticks)
              ∙ ap (fresh s.ticks) self
              ∙ fresh-newborn s page (s.procs p);
        },
      )

-- allocproc(), called on a table in order with the lock free, takes the first process of the free
-- list, makes it an embryo with the next pid, whose stack holds the trap frame and
-- a context that starts in forkret and returns to trapret, with its times 0 and a budget of 120 at the top
-- priority, and keeps the table in order and
-- all other processes as they are. Without a free process it returns null and changes nothing;
-- without a page for the stack it returns null and puts the process back at the head of the free
-- list. The lock is free again in each case.
pub allocproc_lem :
    (queue : Slot → List Ptr) (page : ℕ) (s : State)
    → IsOrdered queue s.table
    → IsFree s.sync
    → Outcome queue page s
allocproc_lem queue page s inv f = by_list (queue Slot.free) refl
  where
    by_list : (xs : List Ptr) → queue Slot.free ≡ xs → Outcome queue page s
    by_list [] e = inl (record {
      empty = e;
      run = none_run page s f (
          Chain-head s.lists.next (s.lists.head Slot.free) (queue Slot.free) (inv.chain Slot.free)
          ∙ ap head e);
    })
    by_list (p ∷ rest) e = elim (Bool-cases (page == 0)) [
      | inl none ↦
          let (s', w) = no_stack queue s inv f p rest e in
          subst (λ m. Outcome queue m s) (sym (==→eq page 0 none)) (inr (inl (p, rest, s', w)))
      | inr some_ ↦
          let (s', w) = allocated queue s inv f p rest e page (==→ne page 0 some_) in
          inr (inr (p, rest, s', w))
    ]
