-- ===== src/Gic/Tests.antt =====
-- A distributor at work.
use kados_ng.Base.{ℕ, ◌+◌, ◌-◌, ◌/◌, ◌%◌, ◌≡◌, arith, ◌==◌, if◌then◌else◌}
use kados_ng.Bits.{bit_and_flag}
use kados_ng.Mem.Outcome.{ok, panic}
use kados_ng.Mem.Memory.{Memory, update}
use kados_ng.Gic.Mmio.{Device}
use kados_ng.Gic.Chip.{GicDist, disable_irq, enable_irq}
use kados_ng.Gic.Disable.{ClearsEnabled, disable_irq_panics}
use kados_ng.Gic.Enable.{Enabled, holding, enable_irq-Enabled}

-- Clear-enable registers, for a write of one bit.
abbrev without : ℕ → ℕ → ℕ
without x bit = if x / bit % 2 == 1 then x - bit else x

abbrev clear_enable : Device Memory
clear_enable = record {
  on_read = λ a m. (m a, m);
  on_write = λ a v m. update m a (without (m a) v);
}

abbrev distributor : GicDist
distributor = record { base = record { addr = 0xffff_8000_ff84_1000 }; num_irqs = 256 }

clear_enable-ClearsEnabled : ClearsEnabled clear_enable distributor.base.addr 33
clear_enable-ClearsEnabled m =
    ground (arith, bit_and_flag 1 (without (m (0xffff_8000_ff84_1000 + 0x184)) 2))

abbrev all_enabled : Memory
all_enabled _ = 0xffff_ffff

disable_irq_panics_example : (disable_irq clear_enable distributor 33 all_enabled).0 ≡ panic
disable_irq_panics_example =
    disable_irq_panics clear_enable distributor 33 all_enabled clear_enable-ClearsEnabled
      (omega arith, omega arith, omega arith) (omega arith)

enable_irq-Enabled_example :
    ((enable_irq holding distributor 33 all_enabled).0 ≡ ok tt)
    × Enabled distributor.base.addr 33 all_enabled (enable_irq holding distributor 33 all_enabled).1
enable_irq-Enabled_example =
    enable_irq-Enabled distributor 33 all_enabled (omega arith, omega arith, omega arith)
      (omega arith)
