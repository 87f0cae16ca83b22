-- ===== src/Paging/Flush.antt =====
-- crates/kernel/src/mem/paging/flush.rs. What a flush does is the list of the addresses that it hands to
-- `Arch::invalidate_page`, in order; `none` says that the fuel of its loop ran out.
use kados_ng.Base.{
  ℕ, zero, suc, ◌+◌, ◌-◌, ◌*◌, ◌/◌, ◌%◌, ◌^◌, ◌≤◌, ◌<◌, ◌≡◌, ◌≢◌, ◌⊎◌, ◌↔◌, refl, ap, ap₂, ◌∙◌,
  arith, inl, inr, Bool, true, false, Bool-cases, List, [], ◌∷◌, Option, none, some, ltb, ◌==◌,
  ◌||◌, if◌then◌else◌, ltb→lt, ℕ-cases, ==_of_ne,
}
use kados_ng.Arch.{page_size}
use kados_ng.Mem.Outcome.{Outcome, ok, err, panic}
use kados_ng.Mem.Canonical.{canonicalize_virtaddr-eq_iff}
use kados_ng.Mem.VirtAddr
use kados_ng.Mem.VirtAddr.{VirtAddr}

-- `PageFlush::flush`
abbrev pub flush_page : VirtAddr → List VirtAddr
flush_page addr = addr ∷ []

pub record PageFlushRange : Type 0 where
  pub start : VirtAddr
  pub end : VirtAddr

abbrev pub with_page : VirtAddr → Option (List VirtAddr) → Option (List VirtAddr)
with_page page none = none
with_page page (some ps) = some (page ∷ ps)

unfoldable pub flush_loop : ℕ → VirtAddr → VirtAddr → Option (List VirtAddr)
flush_loop zero page end = if ltb page end then none else some []
flush_loop (suc n) page end =
    let rest = with_page page (flush_loop n (VirtAddr.add_bytes page page_size) end) in
    if ltb page end then rest else some []

abbrev flush_from : ℕ → VirtAddr → Outcome VirtAddr → Outcome (Option (List VirtAddr))
flush_from fuel page (ok end) = ok (flush_loop fuel page end)
flush_from fuel page (err e) = err e
flush_from fuel page panic = panic

abbrev flush_between : ℕ → Outcome VirtAddr → Outcome VirtAddr → Outcome (Option (List VirtAddr))
flush_between fuel (ok page) end = flush_from fuel page end
flush_between fuel (err e) end = err e
flush_between fuel panic end = panic

unfoldable pub flush : ℕ → PageFlushRange → Outcome (Option (List VirtAddr))
flush fuel r =
    flush_between fuel (VirtAddr.align_down r.start page_size) (VirtAddr.align_up r.end page_size)

abbrev pub contains : ℕ → List ℕ → Bool
contains n [] = false
contains n (x ∷ xs) = (x == n) || contains n xs

-- The two ends are pages, in one half of virtual memory.
abbrev IsSpan : VirtAddr → VirtAddr → Type 0
IsSpan page end =
    (page % 4096 ≡ 0)
    × (end % 4096 ≡ 0)
    × ((end < 2 ^ 47) ⊎ ((2 ^ 64 - 2 ^ 47 ≤ page) × (end < 2 ^ 64)))

abbrev Flushed : Option (List VirtAddr) → VirtAddr → VirtAddr → Type 0
Flushed o page end =
    (ps : List VirtAddr) × (o ≡ some ps)
    × ((q : VirtAddr) → q % 4096 ≡ 0 → (contains q ps ≡ true) ↔ ((page ≤ q) × (q < end)))

next_page :
    (page end : ℕ) → IsSpan page end → page < end → VirtAddr.add_bytes page 4096 ≡ page + 4096
next_page page end s h = ground (arith, s, canonicalize_virtaddr-eq_iff (page + 4096))

next_IsSpan : (page end : ℕ) → IsSpan page end → page < end → IsSpan (page + 4096) end
next_IsSpan page end (a, b, inl low) h = (omega arith, b, inl low)
next_IsSpan page end (a, b, inr (l, u)) h = (omega arith, b, inr (omega arith, u))

other_lt : (page q : ℕ) → page % 4096 ≡ 0 → q % 4096 ≡ 0 → page ≢ q → page ≤ q → page + 4096 ≤ q
other_lt page q a b ne h = ground arith

in_page :
    (page end q : ℕ) (ps : List ℕ)
    → page % 4096 ≡ 0
    → q % 4096 ≡ 0
    → page < end
    → (contains q ps ≡ true) ↔ ((page + 4096 ≤ q) × (q < end))
    → (contains q (page ∷ ps) ≡ true) ↔ ((page ≤ q) × (q < end))
in_page page end q ps a b l all = elim (ℕ-cases page q) [
  | inl same ↦ ground arith
  | inr other ↦ (
    λ c. (
      omega (arith, (all.0 (rw (==_of_ne page q other) at c)).0),
      (all.0 (rw (==_of_ne page q other) at c)).1,
    ),
    λ c. rw (==_of_ne page q other) (all.1 (omega (arith, other_lt page q a b other c.0), c.1)),
  )
]

meets :
    (start end q : ℕ) (ps : List ℕ)
    → q % 4096 ≡ 0
    → (contains q ps ≡ true) ↔ ((start / 4096 * 4096 ≤ q) × (q < (end + 4095) / 4096 * 4096))
    → (contains q ps ≡ true) ↔ ((q < end) × (start < q + 4096))
meets start end q ps a all = (
  λ c. (omega (arith, (all.0 c).1), omega (arith, (all.0 c).0)),
  λ c. all.1 (omega (arith, c), omega (arith, c)),
)

flush_one :
    (n page end : ℕ) (ps : List ℕ)
    → ltb page end ≡ true
    → VirtAddr.add_bytes page 4096 ≡ page + 4096
    → flush_loop n (page + 4096) end ≡ some ps
    → flush_loop (suc n) page end ≡ some (page ∷ ps)
unfolding flush_loop
flush_one n page end ps more e run = rw (more, e, run) refl

flush_rounded :
    (fuel : ℕ) (r : PageFlushRange) (page end : ℕ) (ps : List ℕ)
    → VirtAddr.align_down r.start 4096 ≡ ok page
    → VirtAddr.align_up r.end 4096 ≡ ok end
    → flush_loop fuel page end ≡ some ps
    → flush fuel r ≡ ok (some ps)
unfolding flush
flush_rounded fuel r page end ps d u run = ap₂ (flush_between fuel) d u ∙ ap ok run

flush_loop-Flushed :
    (n : ℕ) (page end : VirtAddr)
    → IsSpan page end
    → end ≤ page + n * 4096
    → Flushed (flush_loop n page end) page end
unfolding flush_loop
flush_loop-Flushed zero page end s h = ([], ground arith, λ q a. ground arith)
flush_loop-Flushed (suc n) page end s h = elim (Bool-cases (ltb page end)) [
  | inl more ↦
      let l : page < end = ltb→lt page end more in
      let e = next_page page end s l in
      let (ps, run, all) =
        flush_loop-Flushed n (page + 4096) end (next_IsSpan page end s l) (omega arith) in
      (
        page ∷ ps,
        flush_one n page end ps more e run,
        λ q a. in_page page end q ps s.0 a l (all q a),
      )
  | inr over ↦ ([], rw over refl, λ q a. ground arith)
]

-- The range that is rounded to pages by `flush` stays in one half of virtual memory.
abbrev pub IsFlushRange : PageFlushRange → Type 0
IsFlushRange r =
    (r.start ≤ r.end)
    × ((r.end + 4096 ≤ 2 ^ 47) ⊎ ((2 ^ 64 - 2 ^ 47 ≤ r.start) × (r.end + 4096 ≤ 2 ^ 64)))

rounded_down :
    (r : PageFlushRange)
    → IsFlushRange r
    → VirtAddr.align_down r.start 4096 ≡ ok (r.start / 4096 * 4096)
unfolding VirtAddr.align_down
rounded_down r h = ground (arith, canonicalize_virtaddr-eq_iff (r.start / 4096 * 4096))

rounded_up :
    (r : PageFlushRange)
    → IsFlushRange r
    → VirtAddr.align_up r.end 4096 ≡ ok ((r.end + 4095) / 4096 * 4096)
unfolding VirtAddr.align_up
rounded_up r h = ground (arith, canonicalize_virtaddr-eq_iff ((r.end + 4095) / 4096 * 4096))

rounded_IsSpan :
    (r : PageFlushRange)
    → IsFlushRange r
    → IsSpan (r.start / 4096 * 4096) ((r.end + 4095) / 4096 * 4096)
rounded_IsSpan r (le, inl low) = (omega arith, omega arith, inl (omega arith))
rounded_IsSpan r (le, inr (l, u)) = (omega arith, omega arith, inr (omega arith, omega arith))

-- Flushing a range that stays in one half of virtual memory ends, with fuel for its pages and two
-- more, and invalidates exactly the pages that begin before its end and end after its start.
pub flush-Flushed :
    (fuel : ℕ) (r : PageFlushRange)
    → IsFlushRange r
    → r.end + 8192 ≤ r.start + fuel * 4096
    → (ps : List VirtAddr) × (flush fuel r ≡ ok (some ps))
      × ((q : VirtAddr)
          → q % 4096 ≡ 0
          → (contains q ps ≡ true) ↔ ((q < r.end) × (r.start < q + 4096)))
flush-Flushed fuel r h f =
    let (ps, run, all) =
      flush_loop-Flushed fuel (r.start / 4096 * 4096) ((r.end + 4095) / 4096 * 4096)
        (rounded_IsSpan r h) (omega arith) in
    (
      ps,
      flush_rounded fuel r (r.start / 4096 * 4096) ((r.end + 4095) / 4096 * 4096) ps
          (rounded_down r h) (rounded_up r h) run,
      λ q a. meets r.start r.end q ps a (all q a),
    )
