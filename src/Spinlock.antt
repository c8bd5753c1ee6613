-- ===== src/Spinlock.antt =====
-- spinlock.c: a lock and the interrupt state of the CPU that takes it. The lock's name and the
-- recorded call stack serve debugging alone and are left out. What another CPU holds makes
-- `acquire` spin.
pub mod Critical
use fp_sisop20_b.Prelude.{ℕ, ◌+◌, ◌-◌, Bool, true, false, not, ◌&&◌, ◌==◌, if◌then◌else◌}
use fp_sisop20_b.Run.{ok, spins, Cmd, pure, panic, ◌>>=◌, ◌>>◌, get, modify}

-- The part of `struct cpu` that locks use; `interrupts` is the FL_IF bit of eflags.
pub record Cpu : Type 0 where
  pub id : ℕ
  pub ncli : ℕ
  pub intena : Bool
  pub interrupts : Bool

-- `cpu` is the id of the owner plus one, and 0 is the null pointer.
pub record Spinlock : Type 0 where
  pub locked : Bool
  pub cpu : ℕ

pub record Sync : Type 0 where
  pub cpu : Cpu
  pub lock : Spinlock

unfoldable pub initlock : Cmd Sync (Unit {0})
initlock = modify (λ y. record y { lock = record { locked = false; cpu = 0 } })

unfoldable pub holding : Cmd Sync Bool
holding = get (λ y. y.lock.locked && y.lock.cpu == y.cpu.id + 1)

unfoldable pub pushcli : Cmd Sync (Unit {0})
pushcli = do
  eflags ← get (λ y. y.cpu.interrupts)
  modify (λ y. record y { cpu = record (y.cpu) { interrupts = false } })
  n ← get (λ y. y.cpu.ncli)
  modify (λ y. record y { cpu = record (y.cpu) { ncli = n + 1 } })
  if n == 0 then modify (λ y. record y { cpu = record (y.cpu) { intena = eflags } }) else pure tt

-- `--cpu->ncli < 0` holds where ncli was 0.
unfoldable pub popcli : Cmd Sync (Unit {0})
popcli = do
  on ← get (λ y. y.cpu.interrupts)
  n ← get (λ y. y.cpu.ncli)
  if on then panic "popcli - interruptible" else if n == 0 then panic "popcli" else (do
    modify (λ y. record y { cpu = record (y.cpu) { ncli = n - 1 } })
    intena ← get (λ y. y.cpu.intena)
    if n - 1 == 0 && intena
        then modify (λ y. record y { cpu = record (y.cpu) { interrupts = true } })
        else pure tt)

-- `while(xchg(&lk->locked, 1) != 0);`
unfoldable pub xchg_lock : Cmd Sync (Unit {0})
xchg_lock y =
    if y.lock.locked then spins else ok tt (record y { lock = record (y.lock) { locked = true } })

unfoldable pub acquire : Cmd Sync (Unit {0})
unfolding holding pushcli xchg_lock
acquire = do
  pushcli
  held ← holding
  if held
      then panic "acquire"
      else (do xchg_lock; modify (λ y. record y { lock = record (y.lock) { cpu = y.cpu.id + 1 } }))

unfoldable pub release : Cmd Sync (Unit {0})
unfolding holding popcli
release = do
  held ← holding
  if not held then panic "release" else (do
    modify (λ y. record y { lock = record (y.lock) { cpu = 0 } })
    modify (λ y. record y { lock = record (y.lock) { locked = false } })
    popcli)
