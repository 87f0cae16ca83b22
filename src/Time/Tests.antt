-- ===== src/Time/Tests.antt =====
-- A counter of 62.5 million ticks in a second, as the boards have it.
use kados_ng.Base.{◌≡◌, refl, arith, [], ◌∷◌, some}
use kados_ng.Mem.Outcome.{ok}
use kados_ng.Time.{Duration, uptime, spin_for, spin_for-Elapsed}

abbrev microsecond : Duration
microsecond = record { secs = 0; nanos = 1000 }

uptime_test : uptime 62500000 62500001 ≡ ok (record { secs = 1; nanos = 16 })
unfolding uptime
uptime_test = refl

spin_for-Elapsed_example :
    spin_for 62500000 microsecond (62499990 ∷ 62500000 ∷ 62500051 ∷ 62500053 ∷ 7 ∷ [])
    ≡ ok (some (7 ∷ []))
spin_for-Elapsed_example =
    spin_for-Elapsed 62500000 62499990 62500053 microsecond (62500000 ∷ 62500051 ∷ []) (7 ∷ [])
      (omega arith) (omega arith) (omega arith)
      ((omega arith, omega arith), ((omega arith, omega arith), tt)) (omega arith) (omega arith)
