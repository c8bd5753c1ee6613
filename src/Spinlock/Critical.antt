-- ===== src/Spinlock/Critical.antt =====
-- What a critical section does to the lock and to the CPU.
use fp_sisop20_b.Prelude.{◌+◌, ◌<◌, ◌≡◌, refl, true, false, ◌==◌, if◌then◌else◌, arith}
use fp_sisop20_b.Run.{ok, ◌>>◌}
use fp_sisop20_b.Spinlock.{Sync, acquire, release}

-- The lock is free, and a CPU inside pushcli has its interrupts off.
pub record IsFree (y : Sync) : Type 0 where
  pub unlocked : y.lock.locked ≡ false
  pub nested : 0 < y.cpu.ncli → y.cpu.interrupts ≡ false

-- This CPU holds the lock.
abbrev pub taken : Sync → Sync
taken y = record {
  cpu = record {
    id = y.cpu.id;
    ncli = y.cpu.ncli + 1;
    intena = if y.cpu.ncli == 0 then y.cpu.interrupts else y.cpu.intena;
    interrupts = false;
  };
  lock = record { locked = true; cpu = y.cpu.id + 1 };
}

-- After the section: as before, but for the remembered `intena`.
abbrev pub dropped : Sync → Sync
dropped y = record {
  cpu = record (y.cpu) { intena = if y.cpu.ncli == 0 then y.cpu.interrupts else y.cpu.intena };
  lock = record { locked = false; cpu = 0 };
}

pub acquire-taken : (y : Sync) → y.lock.locked ≡ false → acquire y ≡ ok tt (taken y)
unfolding acquire
acquire-taken y h = ground arith

pub release-dropped : (y : Sync) → IsFree y → release (taken y) ≡ ok tt (dropped y)
unfolding release
release-dropped y f = ground arith

pub dropped-IsFree : (y : Sync) → IsFree y → IsFree (dropped y)
dropped-IsFree y f = record { unlocked = refl; nested = f.nested }

-- acquire followed by release, from a free lock: the lock is free again, and the CPU's interrupts and
-- nesting depth are as before, so that critical sections nest and follow each other.
pub section_lem :
    (y : Sync)
    → IsFree y
    → (y' : Sync) × ((acquire >> release) y ≡ ok tt y')
      × IsFree y'
      × (y'.cpu.interrupts ≡ y.cpu.interrupts)
      × (y'.cpu.ncli ≡ y.cpu.ncli)
section_lem y f = (
  dropped y,
  rw (acquire-taken y f.unlocked) (release-dropped y f),
  dropped-IsFree y f,
  refl,
  refl,
)
