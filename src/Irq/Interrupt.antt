-- ===== src/Irq/Interrupt.antt =====
-- `get_interrupt` and the choice of `interrupt_parent` of irq.rs. What the device tree answers is an
-- argument: the value of the node's `interrupts`, and the cells of the parent. Offsets wrap, as in a
-- release build.
use kados_ng.Base.{ℕ, zero, suc, ◌+◌, ◌*◌}
use kados_ng.Base.{
  List, [], ◌∷◌, Option, none, some, ltb, leb, ◌==◌, if◌then◌else◌, length, get_or, set, take, drop,
}
use kados_ng.Arch.{wrapping_mul, wrapping_add}
use kados_ng.Irq.Chip.{IrqCell, l1, l2, l3}

-- `a.or_else(|| b)`
abbrev or_else : Option ℕ → Option ℕ → Option ℕ
or_else (some a) b = some a
or_else none b = b

-- The node's own parent, else that of `/soc`, else that of `/`.
unfoldable pub interrupt_parent : Option ℕ → Option ℕ → Option ℕ → Option ℕ
interrupt_parent own soc root = or_else (or_else own soc) root

-- `u32::from_be_bytes` of the four bytes at an offset.
unfoldable pub from_be_bytes : List ℕ → ℕ
from_be_bytes chunk =
    ((get_or chunk 0 0 * 256 + get_or chunk 1 0) * 256 + get_or chunk 2 0) * 256 + get_or chunk 3 0

-- The loop over `values`, with the first `i` of them read; `none` is its early return.
unfoldable pub read_values : ℕ → List ℕ → ℕ → ℕ → List ℕ → Option (List ℕ)
unfolding from_be_bytes
read_values zero bytes start i values = some values
read_values (suc left) bytes start i values =
    let offset = wrapping_add start (i * 4) in
    if leb (offset + 4) (length bytes)
    then read_values left bytes start (i + 1)
        (set values i (from_be_bytes (take 4 (drop offset bytes))))
    else none

abbrev pub cell_of : ℕ → Option (List ℕ) → Option IrqCell
cell_of cells none = none
cell_of cells (some values) =
    if cells == 1
    then some (l1 (get_or values 0 0))
    else if cells == 2
    then some (l2 (get_or values 0 0) (get_or values 1 0))
    else if cells == 3
    then some (l3 (get_or values 0 0) (get_or values 1 0) (get_or values 2 0))
    else none

-- `.take(parent_intr_cells)` on the three values.
abbrev at_most_three : ℕ → ℕ
at_most_three cells = if leb cells 3 then cells else 3

abbrev pub get_cells : List ℕ → ℕ → ℕ → Option IrqCell
get_cells bytes cells idx =
    let start_offset = wrapping_mul (wrapping_mul cells idx) 4 in
    if ltb (length bytes) (wrapping_add start_offset (wrapping_mul cells 4))
    then none
    else cell_of cells (read_values (at_most_three cells) bytes start_offset 0 (0 ∷ 0 ∷ 0 ∷ []))

unfoldable pub get_interrupt : Option (List ℕ) → Option ℕ → ℕ → Option IrqCell
get_interrupt none cells idx = none
get_interrupt (some bytes) none idx = none
get_interrupt (some bytes) (some cells) idx = get_cells bytes cells idx
