-- ===== src/Gic/Enable.antt =====
-- What `enable_irq` writes, on registers that hold what is written to them.
use kados_ng.Base.{
  ℕ, ◌+◌, ◌-◌, ◌*◌, ◌/◌, ◌%◌, ◌^◌, ◌≡◌, ◌≢◌, ◌<◌, bit_and, bit_or, ap, ◌∙◌, sym, refl, arith,
  ==_of_ne,
}
use kados_ng.Base.{Bool-cases, inl, inr, ltb, if◌then◌else◌, ==_refl}
use kados_ng.Mem.Outcome.{ok}
use kados_ng.Mem.Memory.{Memory, update}
use kados_ng.Irq.Chip.{Irq}
use kados_ng.Gic.Mmio.{Device, Mmio, write_assert, set, clear, set_assert}
use kados_ng.Gic.Chip.{
  GicDist, enable_irq, set_target, bit_word, irq_bit, gicd_isenabler, gicd_icfgr, gicd_ipriority,
  gicd_itargetsr,
}
use kados_ng.Gic.Disable.{IsBase, read-eq, write-eq}

abbrev pub holding : Device Memory
holding = record { on_read = λ a m. (m a, m); on_write = λ a v m. update m a v }

module _ (r : Mmio) (base : IsBase r.addr) (offset : ℕ) (inside : offset < 0x1000)
    (aligned : offset % 4 ≡ 0) (m : Memory) where
  set-eq :
      (bits : ℕ)
      → set holding r offset bits m
        ≡ (ok tt, update m (r.addr + offset) (bit_or (m (r.addr + offset)) bits))
  unfolding set
  set-eq bits =
      rw (read-eq holding r offset m base inside aligned)
        (write-eq holding r offset (bit_or (m (r.addr + offset)) bits) m base inside aligned)

  clear-eq :
      (bits : ℕ)
      → clear holding r offset bits m
        ≡ (ok tt, update m (r.addr + offset) (bit_and (m (r.addr + offset)) (2 ^ 32 - 1 - bits)))
  unfolding clear
  clear-eq bits = rw (read-eq holding r offset m base inside aligned) (
      write-eq holding r offset (bit_and (m (r.addr + offset)) (2 ^ 32 - 1 - bits)) m base inside
        aligned)

  set_assert-eq :
      (bits : ℕ)
      → set_assert holding r offset bits m
        ≡ (ok tt, update m (r.addr + offset) (bit_or (m (r.addr + offset)) bits))
  unfolding set_assert write_assert
  set_assert-eq bits =
      let v = bit_or (m (r.addr + offset)) bits in
      let m' = update m (r.addr + offset) v in
      rw
        (
          read-eq holding r offset m base inside aligned,
          write-eq holding r offset v m base inside aligned,
          read-eq holding r offset m' base inside aligned,
        )
        (rw (==_refl (r.addr + offset), ==_refl v) refl)

target_of : GicDist → Irq → ℕ
target_of d irq = d.base.addr + (gicd_itargetsr + irq / 4 * 4)

-- Memory after the target is set.
targeted : GicDist → Irq → Memory → Memory
unfolding target_of
targeted d irq m =
    if ltb 31 irq
    then update m (target_of d irq) (bit_or (m (target_of d irq)) (1 * 2 ^ (irq % 4 * 8)))
    else m

set_target-eq :
    (d : GicDist) (irq : Irq) (m : Memory)
    → IsBase d.base.addr
    → irq < 1024
    → set_target holding d irq m ≡ (ok tt, targeted d irq m)
unfolding set_target targeted
set_target-eq d irq m base lt = elim (Bool-cases (ltb 31 irq)) [
  | inl shared ↦ rw shared (
      set-eq d.base base (gicd_itargetsr + irq / 4 * 4) (omega arith) (omega arith) m
        (1 * 2 ^ (irq % 4 * 8)))
  | inr own ↦ rw own refl
]

targeted_at :
    (d : GicDist) (irq : Irq) (m : Memory)
    → targeted d irq m (target_of d irq) ≡ (
        if ltb 31 irq
        then bit_or (m (target_of d irq)) (1 * 2 ^ (irq % 4 * 8))
        else m (target_of d irq))
unfolding targeted
targeted_at d irq m = elim (Bool-cases (ltb 31 irq)) [
  | inl shared ↦ rw shared (rw (==_refl (target_of d irq)) refl)
  | inr own ↦ rw own refl
]

targeted_ne :
    (d : GicDist) (irq : Irq) (m : Memory) (a : ℕ) → a ≢ target_of d irq → targeted d irq m a ≡ m a
unfolding targeted
targeted_ne d irq m a h = elim (Bool-cases (ltb 31 irq)) [
  | inl shared ↦ rw shared (rw (==_of_ne (target_of d irq) a (λ e. h (sym e))) refl)
  | inr own ↦ rw own refl
]

written_at : (m : Memory) (a v : ℕ) → update m a v a ≡ v
written_at m a v = rw (==_refl a) refl

written_ne : (m : Memory) (a v b : ℕ) → b ≢ a → update m a v b ≡ m b
written_ne m a v b h = rw (==_of_ne a b (λ e. h (sym e))) refl

-- What the registers of the interrupt hold, and that no other register has changed.
abbrev pub Enabled : ℕ → Irq → Memory → Memory → Type 0
Enabled base irq m m' =
    let target = base + (gicd_itargetsr + irq / 4 * 4) in
    let priority = base + (gicd_ipriority + irq / 4 * 4) in
    let config = base + (gicd_icfgr + irq / 16 * 4) in
    let enable = base + bit_word gicd_isenabler irq in
    (m' target ≡ (if ltb 31 irq then bit_or (m target) (1 * 2 ^ (irq % 4 * 8)) else m target))
    × (m' priority ≡ bit_or (m priority) (0xa0 * 2 ^ (irq % 4 * 8)))
    × (m' config ≡ bit_and (m config) (2 ^ 32 - 1 - 0b11 * 2 ^ (irq % 16 * 2)))
    × (m' enable ≡ bit_or (m enable) (irq_bit irq))
    × ((a : ℕ) → a ≢ target → a ≢ priority → a ≢ config → a ≢ enable → m' a ≡ m a)

-- On registers that hold what is written to them, in 4 KiB of the high half and aligned to 4 bytes,
-- `enable_irq` of an interrupt below 1024 does not panic: it sets the target of a shared interrupt,
-- the priority and the enable bit beside what was set, clears the two bits of the configuration,
-- and changes no other register.
pub enable_irq-Enabled :
    (d : GicDist) (irq : Irq) (m : Memory)
    → IsBase d.base.addr
    → irq < 1024
    → ((enable_irq holding d irq m).0 ≡ ok tt)
      × Enabled d.base.addr irq m (enable_irq holding d irq m).1
unfolding enable_irq target_of
enable_irq-Enabled d irq m base lt =
    let t = target_of d irq in
    let p = d.base.addr + (gicd_ipriority + irq / 4 * 4) in
    let c = d.base.addr + (gicd_icfgr + irq / 16 * 4) in
    let e = d.base.addr + bit_word gicd_isenabler irq in
    let m1 = targeted d irq m in
    let vp = bit_or (m1 p) (0xa0 * 2 ^ (irq % 4 * 8)) in
    let m2 = update m1 p vp in
    let vc = bit_and (m2 c) (2 ^ 32 - 1 - 0b11 * 2 ^ (irq % 16 * 2)) in
    let m3 = update m2 c vc in
    let ve = bit_or (m3 e) (irq_bit irq) in
    let m4 = update m3 e ve in
    let keep = λ (a : ℕ) (hp : a ≢ p) (hc : a ≢ c) (he : a ≢ e).
      written_ne m3 e ve a he ∙ written_ne m2 c vc a hc ∙ written_ne m1 p vp a hp in
    rw
      (
        set_target-eq d irq m base lt,
        set-eq d.base base (gicd_ipriority + irq / 4 * 4) (omega arith) (omega arith) m1
            (0xa0 * 2 ^ (irq % 4 * 8)),
        clear-eq d.base base (gicd_icfgr + irq / 16 * 4) (omega arith) (omega arith) m2
            (0b11 * 2 ^ (irq % 16 * 2)),
        set_assert-eq d.base base (bit_word gicd_isenabler irq) (omega arith) (omega arith) m3
            (irq_bit irq),
      )
      (
        refl,
        (
          keep t (omega arith) (omega arith) (omega arith) ∙ targeted_at d irq m,
          written_ne m3 e ve p (omega arith)
              ∙ written_ne m2 c vc p (omega arith)
              ∙ written_at m1 p vp
              ∙ ap (λ x. bit_or x (0xa0 * 2 ^ (irq % 4 * 8))) (targeted_ne d irq m p (omega arith)),
          written_ne m3 e ve c (omega arith)
              ∙ written_at m2 c vc
              ∙ ap (λ x. bit_and x (2 ^ 32 - 1 - 0b11 * 2 ^ (irq % 16 * 2)))
                  (written_ne m1 p vp c (omega arith) ∙ targeted_ne d irq m c (omega arith)),
          written_at m3 e ve
              ∙ ap (λ x. bit_or x (irq_bit irq))
                  (written_ne m2 c vc e (omega arith)
                    ∙ written_ne m1 p vp e (omega arith)
                    ∙ targeted_ne d irq m e (omega arith)),
          λ a ht hp hc he. keep a hp hc he ∙ targeted_ne d irq m a ht,
        ),
      )
