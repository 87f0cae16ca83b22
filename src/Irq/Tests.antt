-- ===== src/Irq/Tests.antt =====
-- A handler for interrupt 42.
use kados_ng.Base.{ℕ, Bool, true, ltb, ◌≡◌, refl, arith, length, length-replicate, none}
use kados_ng.Irq.Chip.{new, init, register_irq, handler_of, Registered, register_irq-Registered}
use kados_ng.Irq.Interrupt.{get_interrupt, read_values, from_be_bytes}
use kados_ng.Base.{some, [], ◌∷◌, ◌≡◌, refl}
use kados_ng.Irq.Chip.{l3}

new_length : length new.descs ≡ 1024
unfolding new
new_length = length-replicate 1024 init

new_free : handler_of new 42 ≡ none
unfolding new
new_free = refl

-- A chip of 96 interrupts.
abbrev below_96 : ℕ → Bool
below_96 irq = ltb irq 96

register_irq-Registered_example : Registered true 42 7 new (register_irq below_96 42 7 new)
register_irq-Registered_example =
    register_irq-Registered below_96 new 42 7 new_length (omega arith) new_free

-- The second interrupt of a node whose parent has three cells.
get_interrupt_second :
    get_interrupt
      (some (
        0 ∷ 0 ∷ 0 ∷ 0 ∷ 0 ∷ 0 ∷ 0 ∷ 1 ∷ 0 ∷ 0 ∷ 0 ∷ 4 ∷ 0 ∷ 0 ∷ 0 ∷ 1 ∷ 0 ∷ 0 ∷ 1 ∷ 14 ∷ 0 ∷ 0 ∷ 0
        ∷ 8 ∷ []))
      (some 3)
      1
    ≡ some (l3 1 270 8)
unfolding get_interrupt read_values from_be_bytes
get_interrupt_second = refl
