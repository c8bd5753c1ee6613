-- ===== src/Kernel/Order.antt =====
-- What holds between the steps.
use fp_sisop20_b.Prelude.{◌≡◌, refl, ap, ◌∙◌, Bool, false, List, arith}
use fp_sisop20_b.Run.{ok}
use fp_sisop20_b.Spinlock.{Sync, release}
use fp_sisop20_b.Spinlock.Critical.{IsFree, taken, dropped, release-dropped}
use fp_sisop20_b.StateList.{Ptr, Slot}
use fp_sisop20_b.Proc.{running, State}
use fp_sisop20_b.Proc.Invariant.{InTable, IsOrdered}
use fp_sisop20_b.Kernel.{Phase, process, leaving, idle, arriving}

-- The lock is free and no pushcli is open.
pub record Free (y : Sync) : Type 0 where
  pub unlocked : y.lock.locked ≡ false
  pub balanced : y.cpu.ncli ≡ 0

-- This CPU holds the lock, and took it when it was free.
pub record Held (y : Sync) : Type 0 where
  pub before : Sync
  pub held : y ≡ taken before
  pub was_free : Free before

pub record InOrder (s : State) : Type 0 where
  pub queue : Slot → List Ptr
  pub ordered : IsOrdered queue s.table

-- The variable `proc` names a running process.
pub record Current (s : State) : Type 0 where
  pub in_table : InTable s.current
  pub is_running : (s.procs s.current).state ≡ running

abbrev pub Good : Phase → State → Type 0
Good process s = InOrder s × Free s.sync × Current s
Good leaving s = InOrder s × Held s.sync
Good idle s = InOrder s × Free s.sync
Good arriving s = InOrder s × Held s.sync × Current s

pub Free-IsFree : (y : Sync) → Free y → IsFree y
Free-IsFree y f =
    let b = f.balanced in
    record { unlocked = f.unlocked; nested = λ h. absurd (omega (arith, h, b)) }

pub Free-dropped : (y : Sync) → Free y → Free (dropped y)
Free-dropped y f = record { unlocked = refl; balanced = f.balanced }

pub Free-of : (y : Sync) → IsFree y → y.cpu.ncli ≡ 0 → Free y
Free-of y f b = record { unlocked = f.unlocked; balanced = b }

-- What `release` makes of a held lock.
pub release-Held : (y : Sync) → Held y → (y' : Sync) × (release y ≡ ok tt y') × Free y'
release-Held y h = (
  dropped h.before,
  ap release h.held ∙ release-dropped h.before (Free-IsFree h.before h.was_free),
  Free-dropped h.before h.was_free,
)

-- `cpu->intena = intena` with the lock held.
abbrev pub with_intena : Bool → Sync → Sync
with_intena i y = record y { cpu = record (y.cpu) { intena = i } }

pub Held-with_intena : (i : Bool) (y : Sync) → Held y → Held (with_intena i y)
Held-with_intena i y h =
    let b = h.before in
    let z : Sync = record b { cpu = record (b.cpu) { interrupts = i } } in
    record {
      before = z;
      held = ap (with_intena i) h.held ∙ same b (h.was_free.balanced);
      was_free = record { unlocked = h.was_free.unlocked; balanced = h.was_free.balanced };
    }
  where
    same :
        (b : Sync)
        → b.cpu.ncli ≡ 0
        → with_intena i (taken b) ≡ taken (record b { cpu = record (b.cpu) { interrupts = i } })
    same b n = rw n refl
