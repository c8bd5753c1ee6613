-- ===== src/Proc/Alloc/Files.antt =====
-- fork()'s loop over the open files of the parent.
use fp_sisop20_b.Prelude.{
  ℕ, zero, suc, ◌+◌, ◌≡◌, ◌≢◌, refl, sym, ap, ap₂, fun_ext, ◌∙◌, inl, inr, not, ◌&&◌, List, ◌∷◌,
  arith, ◌==◌, ltb, leb, if◌then◌else◌, update, Bool-cases, ==→eq,
}
use fp_sisop20_b.Run.{ok}
use fp_sisop20_b.StateList.{Ptr, Slot}
use fp_sisop20_b.Proc.{Proc, Event, filedup, Table}
use fp_sisop20_b.Proc.Invariant.{IsOrdered}
use fp_sisop20_b.Proc.Edits.{edited, edited_self, edited_ne, edited-trace, edited-IsOrdered}
use fp_sisop20_b.Proc.Alloc.{set_file, dup_loop}

abbrev pub Files : Type 0
Files = ℕ → ℕ

-- The references that the child takes, latest first, on top of an older trace.
abbrev pub dups : (n fd : ℕ) → Files → List Event → List Event
dups zero fd f es = es
dups (suc n) fd f es = dups n (fd + 1) f (if f fd == 0 then es else filedup (f fd) ∷ es)

-- The child's files: from `fd` on, the next `n` are the parent's where it has one.
abbrev pub shared : (n fd : ℕ) → Files → Files → Files
shared n fd f g i = if (leb fd i && ltb i (fd + n)) && not (f i == 0) then f i else g i

abbrev pub with_files : Files → Proc → Proc
with_files g q = record q { ofile = g }

-- One round of the loop.
dup_one : ℕ → Ptr → Ptr → Table → Table
dup_one fd parent np t =
    let f = (t.procs parent).ofile in
    if f fd == 0
    then t
    else edited (record t { trace = filedup (f fd) ∷ t.trace }) np (set_file fd (f fd))

dup_loop_step :
    (n fd : ℕ) (parent np : Ptr) (t : Table)
    → dup_loop (suc n) fd parent np t ≡ dup_loop n (fd + 1) parent np (dup_one fd parent np t)
unfolding dup_loop dup_one edited
dup_loop_step n fd parent np t = elim (Bool-cases ((t.procs parent).ofile fd == 0)) [
  | inl none ↦ rw none refl
  | inr some_ ↦ rw some_ refl
]

-- What `n` rounds from `fd` do.
pub record Dupped (queue : Slot → List Ptr) (n fd : ℕ) (parent np : Ptr) (t t' : Table)
    : Type 0 where
  pub ordered : IsOrdered queue t'
  pub self :
      t'.procs np ≡ with_files (shared n fd (t.procs parent).ofile (t.procs np).ofile) (t.procs np)
  pub others : (r : Ptr) → r ≢ np → t'.procs r ≡ t.procs r
  pub trace : t'.trace ≡ dups n fd (t.procs parent).ofile t.trace

shared_zero : (fd : ℕ) (f g : Files) → shared 0 fd f g ≡ g
shared_zero fd f g = fun_ext (λ i. ground arith)

pub taken_file :
    (fd : ℕ) (f g : Files) (i : ℕ)
    → (if f fd == 0 then g else update g fd (f fd)) i
      ≡ (if i == fd && not (f fd == 0) then f fd else g i)
taken_file fd f g i = elim (Bool-cases (f fd == 0)) [
  | inl none ↦ rw none (ground arith)
  | inr some_ ↦ rw some_ (ground arith)
]

shared_step :
    (n fd : ℕ) (f g : Files)
    → shared n (fd + 1) f (if f fd == 0 then g else update g fd (f fd)) ≡ shared (suc n) fd f g
shared_step n fd f g = fun_ext (λ i. rw (taken_file fd f g i) (by_index i))
  where
    by_index :
        (i : ℕ)
        → (if (leb (fd + 1) i && ltb i (fd + 1 + n)) && not (f i == 0)
            then f i
            else if i == fd && not (f fd == 0)
            then f fd
            else g i)
          ≡ shared (suc n) fd f g i
    by_index i = elim (Bool-cases (i == fd)) [
      | inl is ↦ rw (==→eq i fd is) (ground arith)
      | inr is ↦ ground arith
    ]

-- What one round does.
record One (queue : Slot → List Ptr) (fd : ℕ) (f : Files) (np : Ptr) (t t' : Table) : Type 0 where
  ordered : IsOrdered queue t'
  self :
      t'.procs np
      ≡ with_files
          (if f fd == 0 then (t.procs np).ofile else update (t.procs np).ofile fd (f fd))
          (t.procs np)
  others : (r : Ptr) → r ≢ np → t'.procs r ≡ t.procs r
  trace : t'.trace ≡ (if f fd == 0 then t.trace else filedup (f fd) ∷ t.trace)

dup_one-One :
    (queue : Slot → List Ptr) (fd : ℕ) (parent np : Ptr) (t : Table)
    → IsOrdered queue t
    → One queue fd (t.procs parent).ofile np t (dup_one fd parent np t)
unfolding dup_one set_file
dup_one-One queue fd parent np t inv = elim (Bool-cases ((t.procs parent).ofile fd == 0)) [
  | inl none ↦
      rw none
        (record { ordered = inv; self = rw none refl; others = λ r ne. refl; trace = rw none refl })
  | inr open_ ↦
      let t1 = record t { trace = filedup ((t.procs parent).ofile fd) ∷ t.trace } in
      let g = set_file fd ((t.procs parent).ofile fd) in
      rw open_ (record {
        ordered = edited-IsOrdered queue t1 np g refl (inv.bounded np) inv;
        self = rw open_ (edited_self t1 np g);
        others = λ r ne. edited_ne t1 np g r ne;
        trace = rw open_ (edited-trace t1 np g);
      })
]

dup_loop_zero : (fd : ℕ) (parent np : Ptr) (t : Table) → dup_loop 0 fd parent np t ≡ ok tt t
unfolding dup_loop
dup_loop_zero fd parent np t = refl

pub dup_loop-Dupped :
    (queue : Slot → List Ptr) (n fd : ℕ) (parent np : Ptr) (t : Table)
    → IsOrdered queue t
    → parent ≢ np
    → (t' : Table) × (dup_loop n fd parent np t ≡ ok tt t') × Dupped queue n fd parent np t t'
dup_loop-Dupped queue zero fd parent np t inv ne = (
  t,
  dup_loop_zero fd parent np t,
  record {
    ordered = inv;
    self =
        ap (λ g. with_files g (t.procs np))
          (sym (shared_zero fd (t.procs parent).ofile (t.procs np).ofile));
    others = λ r ne'. refl;
    trace = refl;
  },
)
dup_loop-Dupped queue (suc n) fd parent np t inv ne =
    let t1 = dup_one fd parent np t in
    let w = dup_one-One queue fd parent np t inv in
    let (t', run, v) = dup_loop-Dupped queue n (fd + 1) parent np t1 w.ordered ne in
    let kept : (t1.procs parent).ofile ≡ (t.procs parent).ofile =
      ap {A = Proc} {B = Files} (λ q. q.ofile) (w.others parent ne) in
    (
      t',
      dup_loop_step n fd parent np t ∙ run,
      record {
        ordered = v.ordered;
        self =
            v.self
            ∙ ap₂ (λ f q. with_files (shared n (fd + 1) f q.ofile) q) kept w.self
            ∙ ap (λ g. with_files g (t.procs np))
                (shared_step n fd (t.procs parent).ofile (t.procs np).ofile);
        others = λ r ne'. v.others r ne' ∙ w.others r ne';
        trace = v.trace ∙ ap₂ (dups n (fd + 1)) kept w.trace;
      },
    )
