-- ===== src/Gic/Disable.antt =====
-- What `disable_irq` does on a distributor that behaves as its architecture says.
use native.Mathlib.Nat.{one-le-pow}
use kados_ng.Base.{
  ℕ, ◌+◌, ◌-◌, ◌%◌, ◌^◌, ◌≡◌, ◌≢◌, ◌<◌, ◌≤◌, bit_and, ap, ◌∙◌, sym, refl, inr, arith, ==_of_ne,
}
use kados_ng.Bits.{bit_and_split}
use kados_ng.Mem.Outcome.{ok, panic}
use kados_ng.Mem.VirtAddr
use kados_ng.Mem.VirtAddr.{VirtAddr}
use kados_ng.Mem.Canonical.{canonicalize_virtaddr, canonicalize_virtaddr-eq_iff}
use kados_ng.Mem.Align.{align_ok-eq-ok_iff}
use kados_ng.Irq.Chip.{Irq}
use kados_ng.Gic.Mmio.{Device, Mmio, read, write, write_assert}
use kados_ng.Gic.Chip.{GicDist, disable_irq, bit_word, irq_bit, gicd_icenabler}

-- Registers that a 4 KiB block in the high half has.
abbrev pub IsBase : VirtAddr → Type 0
IsBase addr = (addr % 4 ≡ 0) × (2 ^ 64 - 2 ^ 47 ≤ addr) × (addr + 0x1000 ≤ 2 ^ 64)

pub register_at :
    (addr offset : ℕ)
    → IsBase addr
    → offset < 0x1000
    → VirtAddr.add_bytes addr offset ≡ addr + offset
register_at addr offset h l =
    let fits : (addr + offset) % 2 ^ 64 ≡ addr + offset = omega arith in
    ap canonicalize_virtaddr fits
    ∙ (canonicalize_virtaddr-eq_iff (addr + offset) (omega arith)).1 (inr (omega arith))

pub register_ok :
    (addr offset : ℕ)
    → IsBase addr
    → offset < 0x1000
    → offset % 4 ≡ 0
    → VirtAddr.align_ok (VirtAddr.add_bytes addr offset) 4 ≡ ok tt
register_ok addr offset h l a = rw (register_at addr offset h l) (
    (align_ok-eq-ok_iff (addr + offset) 2 (omega arith) (omega arith)).1
      (omega arith, omega arith, inr (omega arith)))

-- A single bit is not without itself.
bit_and_self : (k : ℕ) → bit_and (2 ^ k) (2 ^ k) ≢ 0
bit_and_self k e = ground (arith, one-le-pow k 2, bit_and_split k 1 1 0 0)

module _ {S : Type 0} (dev : Device S) where
  pub read-eq :
      (m : Mmio) (offset : ℕ) (s : S)
      → IsBase m.addr
      → offset < 0x1000
      → offset % 4 ≡ 0
      → read dev m offset s
        ≡ (ok (dev.on_read (m.addr + offset) s).0, (dev.on_read (m.addr + offset) s).1)
  unfolding read
  read-eq m offset s h l a =
      rw (register_ok m.addr offset h l a, register_at m.addr offset h l) refl

  pub write-eq :
      (m : Mmio) (offset value : ℕ) (s : S)
      → IsBase m.addr
      → offset < 0x1000
      → offset % 4 ≡ 0
      → write dev m offset value s ≡ (ok tt, dev.on_write (m.addr + offset) value s)
  unfolding write
  write-eq m offset value s h l a =
      rw (register_ok m.addr offset h l a, register_at m.addr offset h l) refl

  -- As the architecture has it, a clear-enable register reads as the enabled interrupts, and a write
  -- of an interrupt's bit to it disables the interrupt.
  abbrev pub ClearsEnabled : VirtAddr → Irq → Type 0
  ClearsEnabled addr irq =
      (s : S)
      → bit_and
          (dev.on_read (addr + bit_word gicd_icenabler irq)
            (dev.on_write (addr + bit_word gicd_icenabler irq) (irq_bit irq) s)).0
          (irq_bit irq)
        ≡ 0

  -- On a distributor in 4 KiB of the high half, aligned to 4 bytes, whose clear-enable registers
  -- read as the enabled interrupts, as the architecture has it, `disable_irq` of an interrupt below
  -- 1024 always panics: its assertion reads the interrupt's bit back as 0.
  pub disable_irq_panics :
      (d : GicDist) (irq : Irq) (s : S)
      → ClearsEnabled d.base.addr irq
      → IsBase d.base.addr
      → irq < 1024
      → (disable_irq dev d irq s).0 ≡ panic
  unfolding disable_irq write_assert
  disable_irq_panics d irq s clears base lt =
      let w = bit_word gicd_icenabler irq in
      let written = write-eq d.base w (irq_bit irq) s base (omega arith) (omega arith) in
      let s' = dev.on_write (d.base.addr + w) (irq_bit irq) s in
      let got = read-eq d.base w s' base (omega arith) (omega arith) in
      let x = (dev.on_read (d.base.addr + w) s').0 in
      let differ : x ≢ irq_bit irq =
        λ e. bit_and_self (irq % 32) (ap (λ t. bit_and t (irq_bit irq)) (sym e) ∙ clears s) in
      rw (written, got) (rw (==_of_ne x (irq_bit irq) differ) refl)
