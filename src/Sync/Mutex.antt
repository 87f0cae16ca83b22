-- ===== src/Sync/Mutex.antt =====
-- `IrqMutex` of sync.rs: a spin lock that keeps interrupts off while it is held. On one CPU a lock
-- that is taken while it is held spins forever. `enabled` is the CPU's interrupt flag; a guard holds
-- the mutex that it locks and the flag it saved.
use kados_ng.Base.{
  ℕ, ◌≡◌, refl, Bool, true, false, if◌then◌else◌, Option, none, some, ◌==◌, ==_refl, arith,
}

pub record Cpu : Type 0 where
  pub enabled : Bool
  pub locked : ℕ → Bool

pub record IrqMutexGuard : Type 0 where
  pub mutex : ℕ
  pub saved_intr_status : Bool

-- A lock that is not free is waited for forever: `none`.
abbrev pub Run : Type 0 → Type 0
Run A = Option A

abbrev pub set_locked : ℕ → Bool → (ℕ → Bool) → ℕ → Bool
set_locked m b locked n = if n == m then b else locked n

-- `SavedInterruptStatus::save`, `Arch::disable_interrupts` and the lock. The warning that is printed
-- when the mutex is held is left out: the lock spins then.
unfoldable pub lock : ℕ → Cpu → Run (IrqMutexGuard × Cpu)
lock m cpu =
    if cpu.locked m
    then none
    else some (
      record { mutex = m; saved_intr_status = cpu.enabled },
      record cpu { enabled = false; locked = set_locked m true cpu.locked },
    )

pub data TryLock : Type 0 where
  acquired : IrqMutexGuard → TryLock
  try_lock_error : TryLock

abbrev pub try_lock_found : Run (IrqMutexGuard × Cpu) → Run (TryLock × Cpu)
try_lock_found none = none
try_lock_found (some (g, cpu)) = some (acquired g, cpu)

unfoldable pub try_lock : ℕ → Cpu → Run (TryLock × Cpu)
try_lock m cpu = if cpu.locked m then some (try_lock_error, cpu) else try_lock_found (lock m cpu)

-- Dropping a guard unlocks first and restores the interrupt flag then.
unfoldable pub drop : IrqMutexGuard → Cpu → Cpu
drop g cpu = record { locked = set_locked g.mutex false cpu.locked; enabled = g.saved_intr_status }

-- `force_unlock` leaves the interrupt flag.
unfoldable pub force_unlock : ℕ → Cpu → Cpu
force_unlock m cpu = record cpu { locked = set_locked m false cpu.locked }

abbrev pub Same : Cpu → Cpu → Type 0
Same a b = (a.enabled ≡ b.enabled) × ((m : ℕ) → a.locked m ≡ b.locked m)

-- What taking a mutex gives: interrupts are off and the mutex is held, and if the guard is dropped
-- next the CPU is as it was. Dropping another guard in between may turn interrupts on.
abbrev pub Held : ℕ → Cpu → Option (TryLock × Cpu) → Type 0
Held m cpu none = ⊥
Held m cpu (some (try_lock_error, cpu')) = (cpu.locked m ≡ true) × (cpu' ≡ cpu)
Held m cpu (some (acquired g, cpu')) =
    (cpu.locked m ≡ false)
    × (cpu'.enabled ≡ false)
    × (cpu'.locked m ≡ true)
    × Same (drop g cpu') cpu

restored :
    (m : ℕ) (cpu : Cpu)
    → cpu.locked m ≡ false
    → (n : ℕ) → set_locked m false (set_locked m true cpu.locked) n ≡ cpu.locked n
restored m cpu h n = ground (arith, h)

Held-lock : (m : ℕ) (cpu : Cpu) → cpu.locked m ≡ false → Held m cpu (try_lock_found (lock m cpu))
unfolding lock drop
Held-lock m cpu h = rw h (h, refl, rw (==_refl m) refl, (refl, restored m cpu h))

-- `try_lock` never waits. If the mutex is held it returns the error and changes nothing. Otherwise
-- it returns a guard, with interrupts off and the mutex held; if this guard is dropped next, the
-- interrupt flag and every mutex are what they were before.
pub try_lock-Held : (m : ℕ) (cpu : Cpu) → Held m cpu (try_lock m cpu)
unfolding try_lock
try_lock-Held m cpu = cases (cpu.locked m) refl
  where
    cases : (b : Bool) → cpu.locked m ≡ b → Held m cpu (try_lock m cpu)
    cases true e = rw e (e, refl)
    cases false e = rw e (Held-lock m cpu e)
