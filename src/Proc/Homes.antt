-- ===== src/Proc/Homes.antt =====
-- The states of processes, their numbers and their homes.
use fp_sisop20_b.Prelude.{ℕ, arith, ◌≡◌, ◌≢◌, refl, Bool, true, false, ◌==◌}
use fp_sisop20_b.StateList.{Slot, ready}
use fp_sisop20_b.Proc.{Proc, ProcState, unused, embryo, sleeping, runnable, running, zombie, code}
use fp_sisop20_b.Proc.Invariant.{slot_of, home}

-- Only a sleeping process is at home on the sleep list.
pub home-sleep : (q : Proc) → home q ≡ Slot.sleep → q.state ≡ sleeping
home-sleep q e = by_state q.state e
  where
    by_state : (st : ProcState) → slot_of st q.priority ≡ Slot.sleep → st ≡ sleeping
    by_state unused e' = cc
    by_state embryo e' = cc
    by_state sleeping e' = refl
    by_state runnable e' = cc
    by_state running e' = cc
    by_state zombie e' = cc

pub code→sleeping : (st : ProcState) → (code st == code sleeping) ≡ true → st ≡ sleeping
code→sleeping unused h = cc
code→sleeping embryo h = cc
code→sleeping sleeping h = refl
code→sleeping runnable h = cc
code→sleeping running h = cc
code→sleeping zombie h = cc

pub code_ne_sleeping : (st : ProcState) → st ≢ sleeping → (code st == code sleeping) ≡ false
code_ne_sleeping unused h = refl
code_ne_sleeping embryo h = refl
code_ne_sleeping sleeping h = absurd (h refl)
code_ne_sleeping runnable h = refl
code_ne_sleeping running h = refl
code_ne_sleeping zombie h = refl

-- Only a runnable process is at home on a ready list, that of its priority.
pub home-ready : (q : Proc) (i : ℕ) → home q ≡ ready i → q.state ≡ runnable
home-ready q i e = by_state q.state e
  where
    by_state : (st : ProcState) → slot_of st q.priority ≡ ready i → st ≡ runnable
    by_state unused e' = cc
    by_state embryo e' = cc
    by_state sleeping e' = cc
    by_state runnable e' = refl
    by_state running e' = cc
    by_state zombie e' = cc

pub home-priority : (q : Proc) (i : ℕ) → home q ≡ ready i → q.priority ≡ i
home-priority q i e = by_state q.state e
  where
    by_state : (st : ProcState) → slot_of st q.priority ≡ ready i → q.priority ≡ i
    by_state unused e' = cc
    by_state embryo e' = cc
    by_state sleeping e' = cc
    by_state runnable e' = ground arith
    by_state running e' = cc
    by_state zombie e' = cc

-- Active processes: the states that setpriority() and promoteAll() reach.
abbrev pub is_active : ProcState → Bool
is_active sleeping = true
is_active runnable = true
is_active running = true
is_active _ = false

-- Only an unused process is at home on the free list.
pub home-free : (q : Proc) → home q ≡ Slot.free → q.state ≡ unused
home-free q e = by_state q.state e
  where
    by_state : (st : ProcState) → slot_of st q.priority ≡ Slot.free → st ≡ unused
    by_state unused e' = refl
    by_state embryo e' = cc
    by_state sleeping e' = cc
    by_state runnable e' = cc
    by_state running e' = cc
    by_state zombie e' = cc

-- Only a zombie is at home on the zombie list.
pub home-zombie : (q : Proc) → home q ≡ Slot.zombie → q.state ≡ zombie
home-zombie q e = by_state q.state e
  where
    by_state : (st : ProcState) → slot_of st q.priority ≡ Slot.zombie → st ≡ zombie
    by_state unused e' = cc
    by_state embryo e' = cc
    by_state sleeping e' = cc
    by_state runnable e' = cc
    by_state running e' = cc
    by_state zombie e' = refl
