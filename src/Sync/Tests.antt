-- ===== src/Sync/Tests.antt =====
-- A mutex taken with interrupts on.
use kados_ng.Base.{true, false}
use kados_ng.Sync.Mutex.{Cpu, try_lock, Held, try_lock-Held}

abbrev cpu : Cpu
cpu = record { enabled = true; locked = λ _. false }

try_lock-Held_example : Held 3 cpu (try_lock 3 cpu)
try_lock-Held_example = try_lock-Held 3 cpu
