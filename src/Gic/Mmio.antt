-- ===== src/Gic/Mmio.antt =====
-- `Mmio` of crates/kernel/src/arch/aarch64/drivers/mmio.rs, for values of 4 bytes: accesses of device
-- registers, on a device that answers them. The barriers have no value.
use kados_ng.Base.{ℕ, ◌-◌, ◌^◌, bit_and, bit_or, ◌==◌, if◌then◌else◌}
use kados_ng.Mem.Outcome.{Outcome, ok, err, panic}
use kados_ng.Mem.VirtAddr
use kados_ng.Mem.VirtAddr.{VirtAddr}
use kados_ng.Paging.Monad.{M, ◌>>=◌, ◌>>◌}

-- What a device does on an access, by the address: a read can change its state too.
pub record Device (S : Type 0) : Type 0 where
  pub on_read : VirtAddr → S → ℕ × S
  pub on_write : VirtAddr → ℕ → S → S

abbrev value_size : ℕ
value_size = 4

pub record Mmio : Type 0 where
  pub addr : VirtAddr

module _ {S : Type 0} (dev : Device S) where
  abbrev pub accept_read : Outcome (Unit {0}) → VirtAddr → M S ℕ
  accept_read (ok _) a s = (ok (dev.on_read a s).0, (dev.on_read a s).1)
  accept_read (err e) a s = (panic, s)
  accept_read panic a s = (panic, s)

  abbrev pub accept_write : Outcome (Unit {0}) → VirtAddr → ℕ → M S (Unit {0})
  accept_write (ok _) a v s = (ok tt, dev.on_write a v s)
  accept_write (err e) a v s = (panic, s)
  accept_write panic a v s = (panic, s)

  -- `read_volatile().unwrap()` on the address.
  unfoldable pub read : Mmio → ℕ → M S ℕ
  read m offset =
      accept_read (VirtAddr.align_ok (VirtAddr.add_bytes m.addr offset) value_size)
        (VirtAddr.add_bytes m.addr offset)

  unfoldable pub write : Mmio → ℕ → ℕ → M S (Unit {0})
  write m offset value =
      accept_write (VirtAddr.align_ok (VirtAddr.add_bytes m.addr offset) value_size)
        (VirtAddr.add_bytes m.addr offset) value

  -- `assert_eq!`
  abbrev pub assert_eq : ℕ → ℕ → M S (Unit {0})
  assert_eq a b s = if a == b then (ok tt, s) else (panic, s)

  unfoldable pub write_assert : Mmio → ℕ → ℕ → M S (Unit {0})
  write_assert m offset value = do write m offset value; got ← read m offset; assert_eq got value

  unfoldable pub set : Mmio → ℕ → ℕ → M S (Unit {0})
  set m offset bits = do value ← read m offset; write m offset (bit_or value bits)

  unfoldable pub clear : Mmio → ℕ → ℕ → M S (Unit {0})
  clear m offset bits = do value ← read m offset; write m offset (bit_and value (2 ^ 32 - 1 - bits))

  unfoldable pub set_assert : Mmio → ℕ → ℕ → M S (Unit {0})
  set_assert m offset bits = do value ← read m offset; write_assert m offset (bit_or value bits)

  unfoldable pub clear_assert : Mmio → ℕ → ℕ → M S (Unit {0})
  clear_assert m offset bits = do
    value ← read m offset
    write_assert m offset (bit_and value (2 ^ 32 - 1 - bits))
