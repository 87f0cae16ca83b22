-- ===== src/Time.antt =====
-- arch/aarch64/time.rs of crates/kernel: the generic timer, the uptime and `spin_for`. The counter and
-- its frequency are what the registers show; `Duration` is the type of the language's library.
mod Tests
use native.Mathlib.Nat.{
  le-div_iff_mul-le, div-mul-le_self, div-add-mod, mod-lt, mod-eq_of_lt, mul-add-div_right,
  div-lt_iff_lt-mul,
}
use kados_ng.Base.{
  ℕ, ◌+◌, ◌-◌, ◌*◌, ◌/◌, ◌%◌, ◌^◌, ◌≤◌, ◌<◌, ◌≡◌, refl, sym, ap, arith, Bool, true, false, ◌||◌,
  ◌&&◌, Option, none, some, List, [], ◌∷◌, ◌++◌, ltb, leb, ◌==◌, if◌then◌else◌, Bool-cases, inl,
  inr, lt→ltb, ==_of_ne, ltb_of_le, All, ◌∙◌,
}
use kados_ng.Mem.Outcome.{Outcome, ok, err, panic}

abbrev pub nanos_per_sec : ℕ
nanos_per_sec = 1000000000

pub record Duration : Type 0 where
  pub secs : ℕ
  pub nanos : ℕ

-- `Duration::new` and the subtraction, which panic when they overflow.
abbrev pub duration_new : ℕ → ℕ → Outcome Duration
duration_new s n =
    if ltb n nanos_per_sec
    then ok (record { secs = s; nanos = n })
    else if ltb (s + n / nanos_per_sec) (2 ^ 64)
    then ok (record { secs = s + n / nanos_per_sec; nanos = n % nanos_per_sec })
    else panic

unfoldable pub duration_sub : Duration → Duration → Outcome Duration
duration_sub a b =
    if ltb a.secs b.secs
    then panic
    else if leb b.nanos a.nanos
    then ok (record { secs = a.secs - b.secs; nanos = a.nanos - b.nanos })
    else if a.secs == b.secs
    then panic
    else ok (record { secs = a.secs - b.secs - 1; nanos = a.nanos + nanos_per_sec - b.nanos })

unfoldable pub duration_lt : Duration → Duration → Bool
duration_lt a b = ltb a.secs b.secs || (a.secs == b.secs && ltb a.nanos b.nanos)

-- A division by zero panics; the product wraps as in a release build.
unfoldable pub uptime : ℕ → ℕ → Outcome Duration
uptime clk_freq ticks =
    let secs = ticks / clk_freq in
    let sub_seconds = ticks % clk_freq in
    let nanos = (sub_seconds * nanos_per_sec) % 2 ^ 64 / clk_freq % 2 ^ 32 in
    if clk_freq == 0 then panic else duration_new secs nanos

-- Whether the duration has not elapsed, at a later reading of the counter.
abbrev pub shorter_than : Duration → Outcome Duration → Outcome Bool
shorter_than dur (ok d) = ok (duration_lt d dur)
shorter_than dur (err e) = err e
shorter_than dur panic = panic

abbrev pub spins_on : Outcome Duration → Duration → Duration → Outcome Bool
spins_on (ok now) stamp dur = shorter_than dur (duration_sub now stamp)
spins_on (err e) stamp dur = err e
spins_on panic stamp dur = panic

abbrev pub spin_step : Outcome Bool → List ℕ → Outcome (Option (List ℕ)) → Outcome (Option (List ℕ))
spin_step (ok true) ts rest = rest
spin_step (ok false) ts rest = ok (some ts)
spin_step (err e) ts rest = err e
spin_step panic ts rest = panic

-- The loop of `spin_for`, on the values that the counter shows: the values that are left when it
-- ends, or `none` if it has read them all.
unfoldable pub spin_until : ℕ → Duration → Duration → List ℕ → Outcome (Option (List ℕ))
spin_until f stamp dur [] = ok none
spin_until f stamp dur (t ∷ ts) =
    spin_step (spins_on (uptime f t) stamp dur) ts (spin_until f stamp dur ts)

abbrev pub spin_from : ℕ → Outcome Duration → Duration → List ℕ → Outcome (Option (List ℕ))
spin_from f (ok stamp) dur ts = spin_until f stamp dur ts
spin_from f (err e) dur ts = err e
spin_from f panic dur ts = panic

unfoldable pub spin_for : ℕ → Duration → List ℕ → Outcome (Option (List ℕ))
spin_for f dur [] = ok none
spin_for f dur (t ∷ ts) = spin_from f (uptime f t) dur ts

-- A duration in nanoseconds, and the nanoseconds that a count of ticks takes.
abbrev pub as_nanos : Duration → ℕ
as_nanos d = d.secs * nanos_per_sec + d.nanos

abbrev pub nanos_of : ℕ → ℕ → ℕ
nanos_of f ticks = ticks * nanos_per_sec / f

abbrev pub IsDuration : Duration → Type 0
IsDuration d = d.nanos < nanos_per_sec

-- The registers of the timer: CNTFRQ_EL0, three bits of CNTP_CTL_EL0 and CNTP_TVAL_EL0.
pub record Registers : Type 0 where
  pub cntfrq : ℕ
  pub enable : Bool
  pub imask : Bool
  pub istatus : Bool
  pub tval : ℕ

pub record GenericTimer : Type 0 where
  pub clk_freq : ℕ
  pub reload_count : ℕ

abbrev pub init : Registers → GenericTimer × Registers
init r =
    let clk_freq = r.cntfrq % 2 ^ 32 in
    (
      record { clk_freq = clk_freq; reload_count = clk_freq / 100 },
      record r { tval = clk_freq / 100; enable = true; imask = false },
    )

abbrev pub clear_irq : Registers → Registers
clear_irq r = if r.istatus then record r { imask = true } else r

abbrev pub reload : GenericTimer → Registers → Registers
reload t r = record r { enable = true; imask = false; tval = t.reload_count }

-- `handle_irq`, where `switch` is what runs until the context is switched to again.
unfoldable pub handle_irq : (Registers → Registers) → GenericTimer → Registers → Registers
handle_irq switch t r = reload t (switch (clear_irq r))

-- A timer that interrupts after the given number of ticks.
abbrev pub IsArmed : ℕ → Registers → Type 0
IsArmed n r = (r.enable ≡ true) × (r.imask ≡ false) × (r.tval ≡ n)

-- On a counter of at least 100 and fewer than 2 ^ 32 ticks in a second, the timer interrupts after
-- the ticks of a hundredth of a second, rounded down, once it is initialised and whenever its
-- interrupt has been handled, whatever ran meanwhile.
pub init-IsArmed :
    (r : Registers)
    → 100 ≤ r.cntfrq
    → r.cntfrq < 2 ^ 32
    → (n : ℕ) × (0 < n)
      × (n * 100 ≤ r.cntfrq)
      × (r.cntfrq < n * 100 + 100)
      × IsArmed n (init r).1
      × ((switch : Registers → Registers) (r' : Registers)
          → IsArmed n (handle_irq switch (init r).0 r'))
unfolding handle_irq
init-IsArmed r enough fits =
    let n = r.cntfrq % 2 ^ 32 / 100 in
    (
      n,
      omega (arith, mod-eq_of_lt fits),
      omega (arith, mod-eq_of_lt fits),
      omega (arith, mod-eq_of_lt fits),
      (refl, refl, refl),
      λ switch r'. (refl, refl, refl),
    )

part_lt : (f r : ℕ) → 0 < f → r < f → r * nanos_per_sec / f < nanos_per_sec
part_lt f r pos h = (div-lt_iff_lt-mul pos).1 (omega arith)

nanos_split :
    (f ticks : ℕ)
    → 0 < f
    → nanos_of f ticks ≡ ticks / f * nanos_per_sec + ticks % f * nanos_per_sec / f
nanos_split f ticks pos =
    ap (λ n. n / f) spread
    ∙ mul-add-div_right pos (ticks / f * nanos_per_sec) (ticks % f * nanos_per_sec)
  where
    spread : ticks * nanos_per_sec ≡ ticks / f * nanos_per_sec * f + ticks % f * nanos_per_sec
    spread = grind (arith, div-add-mod ticks f)

uptime-Elapsed :
    (f ticks : ℕ)
    → 0 < f
    → f ≤ 2 ^ 34
    → (d : Duration) × (uptime f ticks ≡ ok d) × IsDuration d × (as_nanos d ≡ nanos_of f ticks)
unfolding uptime
uptime-Elapsed f ticks pos fits = (
  record { secs = ticks / f; nanos = ticks % f * nanos_per_sec / f },
  made,
  part_lt f (ticks % f) pos (mod-lt ticks pos),
  sym (nanos_split f ticks pos),
)
  where
    small : ticks % f * nanos_per_sec % 2 ^ 64 / f % 2 ^ 32 ≡ ticks % f * nanos_per_sec / f
    small =
        ap (λ n. n / f % 2 ^ 32) (mod-eq_of_lt (omega (arith, mod-lt ticks pos)))
        ∙ mod-eq_of_lt (omega (arith, part_lt f (ticks % f) pos (mod-lt ticks pos)))

    made : uptime f ticks ≡ ok (record { secs = ticks / f; nanos = ticks % f * nanos_per_sec / f })
    made =
        rw
          (
            small,
            lt→ltb (ticks % f * nanos_per_sec / f) nanos_per_sec
                (part_lt f (ticks % f) pos (mod-lt ticks pos)),
            ==_of_ne f 0 (omega arith),
          )
          refl

duration_sub-ok :
    (a b : Duration)
    → IsDuration a
    → IsDuration b
    → as_nanos b ≤ as_nanos a
    → (d : Duration) × (duration_sub a b ≡ ok d)
      × IsDuration d
      × (as_nanos d ≡ as_nanos a - as_nanos b)
unfolding duration_sub
duration_sub-ok a b ha hb le = elim (Bool-cases (leb b.nanos a.nanos)) [
  | inl e ↦ (
    record { secs = a.secs - b.secs; nanos = a.nanos - b.nanos },
    ground arith,
    ground arith,
    ground arith,
  )
  | inr e ↦ (
    record { secs = a.secs - b.secs - 1; nanos = a.nanos + nanos_per_sec - b.nanos },
    ground arith,
    ground arith,
    ground arith,
  )
]

duration_lt-as_nanos :
    (a b : Duration) → IsDuration a → IsDuration b → duration_lt a b ≡ ltb (as_nanos a) (as_nanos b)
unfolding duration_lt
duration_lt-as_nanos a b ha hb = ground arith

-- The nanoseconds between two readings of the counter, as `spin_for` computes them.
abbrev pub nanos_since : ℕ → ℕ → ℕ → ℕ
nanos_since f stamp now = nanos_of f now - nanos_of f stamp

nanos_of_le : (f a b : ℕ) → 0 < f → a ≤ b → nanos_of f a ≤ nanos_of f b
nanos_of_le f a b pos h =
    (le-div_iff_mul-le pos).1 (omega (arith, div-mul-le_self (a * nanos_per_sec) f))

-- Whether a later reading of the counter lies within the duration.
spins_on-since :
    (f now ticks : ℕ) (stamp dur : Duration)
    → 0 < f
    → f ≤ 2 ^ 34
    → IsDuration stamp
    → IsDuration dur
    → as_nanos stamp ≡ nanos_of f ticks
    → ticks ≤ now
    → spins_on (uptime f now) stamp dur ≡ ok (ltb (nanos_since f ticks now) (as_nanos dur))
spins_on-since f now ticks stamp dur pos fits hs hd es le =
    let (d, e, id, en) = uptime-Elapsed f now pos fits in
    let (d', e', id', en') =
      duration_sub-ok d stamp id hs (rw (es, en) (nanos_of_le f ticks now pos le)) in
    rw (e, e', duration_lt-as_nanos d' dur id' hd, en', en, es) refl

spin_until-Elapsed :
    (f ticks now : ℕ) (stamp dur : Duration) (before rest : List ℕ)
    → 0 < f
    → f ≤ 2 ^ 34
    → IsDuration stamp
    → IsDuration dur
    → as_nanos stamp ≡ nanos_of f ticks
    → All (λ t. (ticks ≤ t) × (nanos_since f ticks t < as_nanos dur)) before
    → ticks ≤ now
    → as_nanos dur ≤ nanos_since f ticks now
    → spin_until f stamp dur (before ++ now ∷ rest) ≡ ok (some rest)
unfolding spin_until
spin_until-Elapsed f ticks now stamp dur [] rest pos fits hs hd es all le enough =
    rw (spins_on-since f now ticks stamp dur pos fits hs hd es le, ltb_of_le _ _ enough) refl
spin_until-Elapsed f ticks now stamp dur (t ∷ before) rest pos fits hs hd es ((le', short), all) le
      enough =
    rw (spins_on-since f t ticks stamp dur pos fits hs hd es le', lt→ltb _ _ short)
      (spin_until-Elapsed f ticks now stamp dur before rest pos fits hs hd es all le enough)

-- On a counter of at most 2 ^ 34 ticks in a second that does not fall below its first value,
-- `spin_for` passes over the values at which less than the duration has gone by since the first, in
-- whole nanoseconds of uptime, and returns at the next value, at which all of it has. It does not
-- panic.
pub spin_for-Elapsed :
    (f ticks now : ℕ) (dur : Duration) (before rest : List ℕ)
    → 0 < f
    → f ≤ 2 ^ 34
    → IsDuration dur
    → All (λ t. (ticks ≤ t) × (nanos_since f ticks t < as_nanos dur)) before
    → ticks ≤ now
    → as_nanos dur ≤ nanos_since f ticks now
    → spin_for f dur (ticks ∷ before ++ now ∷ rest) ≡ ok (some rest)
unfolding spin_for
spin_for-Elapsed f ticks now dur before rest pos fits hd all le enough =
    let (stamp, e, hs, es) = uptime-Elapsed f ticks pos fits in
    rw (e) (spin_until-Elapsed f ticks now stamp dur before rest pos fits hs hd es all le enough)
