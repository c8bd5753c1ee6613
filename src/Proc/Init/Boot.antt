-- ===== src/Proc/Init/Boot.antt =====
-- What userinit leaves: the lists, and the first process.
use fp_sisop20_b.Prelude.{
  ℕ, zero, suc, ◌≡◌, ◌≢◌, refl, sym, ap, subst, ◌∙◌, inl, inr, List, [], ◌∷◌, arith, ◌==◌, ==→eq,
  ==→ne, ==_ne, Bool-cases,
}
use fp_sisop20_b.Run.{ok, panics, faults}
use fp_sisop20_b.StateList.{Ptr, Slot, ready, Lists, nproc}
use fp_sisop20_b.StateList.Chain.{erase}
use fp_sisop20_b.StateList.Range.{range, range-first}
use fp_sisop20_b.Kalloc.{pgsize}
use fp_sisop20_b.Proc.{
  Proc, runnable, Table, State, inituvm, time_to_promote, budget_full, set_state,
}
use fp_sisop20_b.Proc.Invariant.{home, Inv, IsOrdered}
use fp_sisop20_b.Proc.Steps.{put_self, put_ne, Inv-edit}
use fp_sisop20_b.Proc.Edits.{edited}
use fp_sisop20_b.Proc.Requeue.{stacked, stacked_to, stacked_from, stacked_ne}
use fp_sisop20_b.Proc.Alloc.{allocproc, set_pgdir, set_pid, set_kstack, fresh}
use fp_sisop20_b.Proc.Alloc.Allocproc.{numbered_embryo}
use fp_sisop20_b.Proc.Init.{
  fill_loop, first_image, first_frame, launch, userinit, user_code, user_data, fl_if,
}
use fp_sisop20_b.Proc.Init.Fill.{full_queue}

-- The state in which allocproc() is called.
abbrev pub filled : State → Lists → State
filled s l = record s { promote_at = time_to_promote; table = record (s.table) { lists = l } }

-- The table in which launch runs, and the state that userinit() leaves.
unfoldable pub imaged : (pgdir cwd : ℕ) → Table → Ptr → Table
imaged pgdir cwd t p =
    let t' = edited t p (set_pgdir pgdir) in
    edited (record t' { trace = inituvm pgdir ∷ t'.trace }) p (first_image p cwd)

abbrev pub booted : State → Ptr → Table → State
booted s p t = record s { initproc = p; table = t }

module _ (page pgdir cwd : ℕ) (s : State) (l : Lists) (s' : State)
    (fill : fill_loop nproc 1 s.table ≡ ok tt (record (s.table) { lists = l })) where
  pub fault_run : allocproc page (filled s l) ≡ ok 0 s' → userinit page pgdir cwd s ≡ faults
  unfolding userinit
  fault_run run = rw (fill, run) refl

  pub memory_run :
      (p : Ptr)
      → p ≢ 0
      → allocproc page (filled s l) ≡ ok p s'
      → userinit page 0 cwd s ≡ panics "userinit: out of memory?"
  unfolding userinit
  memory_run p ne run = rw (fill, run, ==_ne ne) refl

  pub boot_run :
      (p : Ptr) (t : Table)
      → p ≢ 0
      → pgdir ≢ 0
      → allocproc page (filled s l) ≡ ok p s'
      → launch p (imaged pgdir cwd s'.table p) ≡ ok tt t
      → userinit page pgdir cwd s ≡ ok tt (booted s' p t)
  unfolding userinit imaged edited
  boot_run p t ne ne' run last = rw (fill, run, ==_ne ne, ==_ne ne', last) refl

-- The lists when userinit() is done.
abbrev pub boot_queue : Slot → List Ptr
boot_queue (ready zero) = 1 ∷ []
boot_queue (ready (suc i)) = []
boot_queue Slot.free = range 2 63
boot_queue Slot.sleep = []
boot_queue Slot.zombie = []
boot_queue Slot.running = []
boot_queue Slot.embryo = []

-- The number of a ready list.
abbrev level : Slot → ℕ
level (ready i) = i
level Slot.free = 0
level Slot.sleep = 0
level Slot.zombie = 0
level Slot.running = 0
level Slot.embryo = 0

-- The lists when allocproc() is back.
abbrev pub new_queue : Slot → List Ptr
new_queue = stacked full_queue 1 Slot.free Slot.embryo

new_ne : (k : Slot) → k ≢ Slot.free → k ≢ Slot.embryo → new_queue k ≡ full_queue k
new_ne k nf ne = stacked_ne full_queue 1 Slot.free Slot.embryo k nf ne

pub new-embryo : new_queue Slot.embryo ≡ 1 ∷ []
new-embryo = stacked_to full_queue 1 Slot.free Slot.embryo (λ d. cc)

pub new-empty : (k : Slot) → k ≢ Slot.free → k ≢ Slot.embryo → new_queue k ≡ []
new-empty (ready i) nf ne = new_ne (ready i) nf ne
new-empty Slot.free nf ne = absurd (nf refl)
new-empty Slot.sleep nf ne = new_ne Slot.sleep nf ne
new-empty Slot.zombie nf ne = new_ne Slot.zombie nf ne
new-empty Slot.running nf ne = new_ne Slot.running nf ne
new-empty Slot.embryo nf ne = absurd (ne refl)

boot_ne :
    (k : Slot)
    → k ≢ Slot.embryo
    → k ≢ ready 0
    → stacked new_queue 1 Slot.embryo (ready 0) k ≡ new_queue k
boot_ne k ne nr = stacked_ne new_queue 1 Slot.embryo (ready 0) k ne nr

pub boot_queue_end : (k : Slot) → stacked new_queue 1 Slot.embryo (ready 0) k ≡ boot_queue k
boot_queue_end (ready zero) =
    stacked_to new_queue 1 Slot.embryo (ready 0) (λ d. cc)
    ∙ ap (λ xs. 1 ∷ xs) (new_ne (ready 0) (λ d. cc) (λ d. cc))
boot_queue_end (ready (suc i)) =
    boot_ne (ready (suc i)) (λ d. cc) (λ d. not_zero d) ∙ new_ne (ready (suc i)) (λ d. cc) (λ d. cc)
  where
    not_zero : ready (suc i) ≡ ready 0 → ⊥
    not_zero d = let e : suc i ≡ 0 = ap level d in omega (arith, e)
boot_queue_end Slot.free =
    boot_ne Slot.free (λ d. cc) (λ d. cc)
    ∙ stacked_from full_queue 1 Slot.free Slot.embryo (λ d. cc)
    ∙ ap (erase 1) (range-first 1 63)
    ∙ ground arith
boot_queue_end Slot.sleep =
    boot_ne Slot.sleep (λ d. cc) (λ d. cc) ∙ new_ne Slot.sleep (λ d. cc) (λ d. cc)
boot_queue_end Slot.zombie =
    boot_ne Slot.zombie (λ d. cc) (λ d. cc) ∙ new_ne Slot.zombie (λ d. cc) (λ d. cc)
boot_queue_end Slot.running =
    boot_ne Slot.running (λ d. cc) (λ d. cc) ∙ new_ne Slot.running (λ d. cc) (λ d. cc)
boot_queue_end Slot.embryo =
    stacked_from new_queue 1 Slot.embryo (ready 0) (λ d. cc)
    ∙ ap (erase 1) new-embryo
    ∙ ground arith

-- The first process: it will run initcode at user address 0 in mode 3 with interrupts on.
pub record FirstProcess (page pgdir cwd : ℕ) (s : State) (q : Proc) : Type 0 where
  pub ready_to_run : (q.state ≡ runnable) × (q.priority ≡ 0) × (q.budget ≡ budget_full)
  pub identity : (q.pid ≡ s.nextpid) × (q.parent ≡ 1) × (q.uid ≡ 0) × (q.gid ≡ 0)
  pub memory : (q.kstack ≡ page) × (q.pgdir ≡ pgdir) × (q.sz ≡ pgsize) × (q.cwd ≡ cwd)
  pub entry : (q.tf.eip ≡ 0) × (q.tf.esp ≡ pgsize) × (q.tf.eflags ≡ fl_if)
  pub segments : (q.tf.cs ≡ user_code) × (q.tf.ds ≡ user_data) × (q.tf.ss ≡ user_data)

abbrev pub first_process : (page pgdir cwd : ℕ) → State → Proc → Proc
first_process page pgdir cwd s q =
    first_image 1 cwd (set_pgdir pgdir (fresh s.ticks (numbered_embryo s page q)))

pub first-FirstProcess :
    (page pgdir cwd : ℕ) (s : State) (q : Proc)
    → FirstProcess page pgdir cwd s (set_state runnable (first_process page pgdir cwd s q))
unfolding first_image first_frame set_pgdir fresh set_state set_kstack set_pid
first-FirstProcess page pgdir cwd s q = record {
  ready_to_run = (refl, refl, refl);
  identity = (refl, refl, refl, refl);
  memory = (refl, refl, refl, refl);
  entry = (refl, refl, refl);
  segments = (refl, refl, refl);
}

pub imaged_self :
    (pgdir cwd : ℕ) (t : Table) (p : Ptr)
    → (imaged pgdir cwd t p).procs p ≡ first_image p cwd (set_pgdir pgdir (t.procs p))
unfolding imaged edited
imaged_self pgdir cwd t p = put_self _ p _ ∙ ap (first_image p cwd) (put_self t.procs p _)

pub imaged_ne :
    (pgdir cwd : ℕ) (t : Table) (p r : Ptr) → r ≢ p → (imaged pgdir cwd t p).procs r ≡ t.procs r
unfolding imaged edited
imaged_ne pgdir cwd t p r ne = put_ne _ p _ r ne ∙ put_ne t.procs p _ r ne

image-home :
    (pgdir cwd : ℕ) (p : Ptr) (q : Proc) → home (first_image p cwd (set_pgdir pgdir q)) ≡ home q
unfolding first_image set_pgdir
image-home pgdir cwd p q = refl

pub image-state :
    (pgdir cwd : ℕ) (p : Ptr) (q : Proc) → (first_image p cwd (set_pgdir pgdir q)).state ≡ q.state
unfolding first_image set_pgdir
image-state pgdir cwd p q = refl

pub image-priority :
    (pgdir cwd : ℕ) (p : Ptr) (q : Proc)
    → (first_image p cwd (set_pgdir pgdir q)).priority ≡ q.priority
unfolding first_image set_pgdir
image-priority pgdir cwd p q = refl

imaged-lists : (pgdir cwd : ℕ) (t : Table) (p : Ptr) → (imaged pgdir cwd t p).lists ≡ t.lists
unfolding imaged edited
imaged-lists pgdir cwd t p = refl

pub imaged-IsOrdered :
    (queue : Slot → List Ptr) (pgdir cwd : ℕ) (t : Table) (p : Ptr)
    → IsOrdered queue t
    → IsOrdered queue (imaged pgdir cwd t p)
imaged-IsOrdered queue pgdir cwd t p inv =
    let same = imaged_self pgdir cwd t p in
    let is : (imaged pgdir cwd t p).lists ≡ t.lists = imaged-lists pgdir cwd t p in
    subst (Inv queue 0 (imaged pgdir cwd t p).procs) (sym is) (
      Inv-edit queue 0 t.procs (imaged pgdir cwd t p).procs t.lists inv
        (λ q. elim (Bool-cases (q == p)) [
          | inl e ↦ rw (==→eq q p e) (ap home same ∙ image-home pgdir cwd p (t.procs p))
          | inr e ↦ ap home (imaged_ne pgdir cwd t p q (==→ne q p e))
        ])
        (λ q. elim (Bool-cases (q == p)) [
          | inl e ↦ rw (==→eq q p e, same, image-priority) (inv.bounded p)
          | inr e ↦ rw (imaged_ne pgdir cwd t p q (==→ne q p e)) (inv.bounded q)
        ]))
