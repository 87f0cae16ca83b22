-- ===== src/Gic/Chip.antt =====
-- `GicDist`, `GicCpu` and the `IrqChip` operations of `Gic` in crates/kernel/src/arch/aarch64/gic.rs.
use kados_ng.Base.{
  ℕ, zero, suc, ◌+◌, ◌*◌, ◌/◌, ◌%◌, ◌^◌, min, bit_and, ◌==◌, ltb, if◌then◌else◌, Bool, true,
}
use kados_ng.Base.{List, Option, none, some, get_elem?}
use kados_ng.Base as Base
use kados_ng.Mem.Outcome.{Outcome, ok, panic}
use kados_ng.Mem.VirtAddr.{VirtAddr}
use kados_ng.Paging.Monad.{M, ◌>>=◌, ◌>>◌, pure}
use kados_ng.Irq.Chip.{Irq, IrqHandlerDescriptor}
use kados_ng.Gic.Mmio.{Device, Mmio, read, write, write_assert, set, clear, set_assert}

abbrev pub gicd_ctlr : ℕ
gicd_ctlr = 0x000

abbrev pub gicd_typer : ℕ
gicd_typer = 0x004

abbrev pub gicd_isenabler : ℕ
gicd_isenabler = 0x100

abbrev pub gicd_ispendr : ℕ
gicd_ispendr = 0x200

abbrev pub gicd_icenabler : ℕ
gicd_icenabler = 0x180

abbrev pub gicd_ipriority : ℕ
gicd_ipriority = 0x400

abbrev pub gicd_itargetsr : ℕ
gicd_itargetsr = 0x800

abbrev pub gicd_icfgr : ℕ
gicd_icfgr = 0xc00

abbrev pub gicc_eoir : ℕ
gicc_eoir = 0x0010

abbrev pub gicc_iar : ℕ
gicc_iar = 0x000c

abbrev pub gicc_ctlr : ℕ
gicc_ctlr = 0x0000

abbrev pub gicc_pmr : ℕ
gicc_pmr = 0x0004

pub record GicDist : Type 0 where
  pub base : Mmio
  pub num_irqs : ℕ

pub record GicCpu : Type 0 where
  pub base : Mmio

-- The word of a register with a bit for each interrupt, and the bit.
abbrev pub bit_word : ℕ → Irq → ℕ
bit_word reg irq = reg + irq / 32 * 4

abbrev pub irq_bit : Irq → ℕ
irq_bit irq = 2 ^ (irq % 32)

-- `descs[i].chip_irq = i; descs[i].used = true`, a panic out of bounds.
unfoldable pub mark_used : ℕ → List IrqHandlerDescriptor → Outcome (List IrqHandlerDescriptor)
mark_used i descs = elim (get_elem? descs i) [
  | none ↦ panic
  | some d ↦ ok (Base.set descs i (record d { chip_irq = i; used = true }))
]

-- `while i < count && i < 1024`, with `rounds` left; `count` is at most 1024.
unfoldable pub mark_from : ℕ → ℕ → List IrqHandlerDescriptor → Outcome (List IrqHandlerDescriptor)
mark_from zero i descs = ok descs
mark_from (suc rounds) i descs = elim (mark_used i descs) [
  | ok descs' ↦ mark_from rounds (i + 1) descs'
  | _ ↦ panic
]

module _ {S : Type 0} (dev : Device S) where
  unfoldable pub dist_init : VirtAddr → M S GicDist
  dist_init addr = do
    let base : Mmio = record { addr = addr }
    write_assert dev base gicd_ctlr 0
    typer ← read dev base gicd_typer
    let num_irqs = (bit_and typer 0x1f + 1) * 32
    write_assert dev base gicd_ctlr (2 ^ 0)
    pure (record { base = base; num_irqs = num_irqs })

  -- Only a shared interrupt has a target.
  unfoldable pub set_target : GicDist → Irq → M S (Unit {0})
  set_target d irq =
      if ltb 31 irq
      then set dev d.base (gicd_itargetsr + irq / 4 * 4) (1 * 2 ^ (irq % 4 * 8))
      else pure tt

  unfoldable pub enable_irq : GicDist → Irq → M S (Unit {0})
  enable_irq d irq = do
    set_target d irq
    set dev d.base (gicd_ipriority + irq / 4 * 4) (0xa0 * 2 ^ (irq % 4 * 8))
    clear dev d.base (gicd_icfgr + irq / 16 * 4) (0b11 * 2 ^ (irq % 16 * 2))
    set_assert dev d.base (bit_word gicd_isenabler irq) (irq_bit irq)

  unfoldable pub is_irq_pending : GicDist → Irq → M S Bool
  is_irq_pending d irq = do
    pending ← read dev d.base (bit_word gicd_ispendr irq)
    pure (bit_and pending (irq_bit irq) == irq_bit irq)

  unfoldable pub disable_irq : GicDist → Irq → M S (Unit {0})
  disable_irq d irq = write_assert dev d.base (bit_word gicd_icenabler irq) (irq_bit irq)

  unfoldable pub manual_irq : GicDist → Irq → M S (Unit {0})
  manual_irq d irq = write_assert dev d.base (bit_word gicd_ispendr irq) (irq_bit irq)

  unfoldable pub cpu_init : VirtAddr → M S GicCpu
  cpu_init addr = do
    let base : Mmio = record { addr = addr }
    write_assert dev base gicc_ctlr 0
    write_assert dev base gicc_pmr 0xf0
    write_assert dev base gicc_ctlr (2 ^ 0)
    pure (record { base = base })

  unfoldable pub ack_irq : GicCpu → M S Irq
  ack_irq c = read dev c.base gicc_iar

  unfoldable pub eoi_irq : GicCpu → Irq → M S (Unit {0})
  eoi_irq c irq = write dev c.base gicc_eoir irq

  -- `IrqChip::init`, from the addresses that `Gic::parse` found: the distributor, the CPU interface,
  -- the descriptors and the end of `irq_range`.
  unfoldable pub gic_init :
      VirtAddr
      → VirtAddr
      → List IrqHandlerDescriptor
      → M S (GicDist × GicCpu × List IrqHandlerDescriptor × ℕ)
  gic_init dist_virt cpu_virt descs = do
    dist ← dist_init dist_virt
    cpu ← cpu_init cpu_virt
    let count = min dist.num_irqs 1024
    descs' ← λ s. (mark_from count 0 descs, s)
    pure (dist, cpu, descs', count)
