-- ===== src/Mem/Memory.antt =====
-- Accesses of memory through virtual addresses (`read_volatile`, `write_volatile`, `fill` of
-- crates/kernel/src/mem/units.rs). Memory is read and written in 8-byte words here, each under the
-- address of its first byte; `fill` sets the words that begin in its range.
use kados_ng.Base.{ℕ, ◌+◌, ◌*◌, ltb, leb, ◌==◌, if◌then◌else◌, ◌&&◌}
use kados_ng.Mem.Outcome.{Outcome, ok, err, panic}
use kados_ng.Mem.VirtAddr
use kados_ng.Mem.VirtAddr.{VirtAddr}

abbrev pub Memory : Type 0
Memory = VirtAddr → ℕ

abbrev pub word_size : ℕ
word_size = 8

abbrev pub update : Memory → VirtAddr → ℕ → Memory
update m p v q = if p == q then v else m q

unfoldable pub read_volatile : VirtAddr → Memory → Outcome ℕ
read_volatile addr m = elim (VirtAddr.align_ok addr word_size) [
  | ok _ ↦ ok (m addr)
  | err e ↦ err e
  | panic ↦ panic
]

unfoldable pub write_volatile : VirtAddr → ℕ → Memory → Outcome (Unit {0}) × Memory
write_volatile addr val m = elim (VirtAddr.align_ok addr word_size) [
  | ok _ ↦ (ok tt, update m addr val)
  | err e ↦ (err e, m)
  | panic ↦ (panic, m)
]

-- Eight copies of a byte.
abbrev pub spread : ℕ → ℕ
spread val = val * 0x0101_0101_0101_0101

abbrev pub fill_words : VirtAddr → ℕ → ℕ → Memory → Memory
fill_words addr val len m q = if leb addr q && ltb q (addr + len) then spread val else m q

unfoldable pub fill : VirtAddr → ℕ → ℕ → Memory → Outcome ℕ × Memory
fill addr val len m = elim (VirtAddr.align_ok addr 1) [
  | ok _ ↦ elim (VirtAddr.align_ok (VirtAddr.add_bytes addr len) 1) [
    | ok _ ↦ (ok len, fill_words addr val len m)
    | err e ↦ (err e, m)
    | panic ↦ (panic, m)
  ]
  | err e ↦ (err e, m)
  | panic ↦ (panic, m)
]
