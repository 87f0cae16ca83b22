-- ===== src/Irq/Chip.antt =====
-- `IrqChipDescriptor` and `register_irq` of irq.rs. A handler is a number, and the calls that reach
-- the chip and the handlers, which are trait objects, are logged in order.
use kados_ng.Base.{ℕ, ◌+◌, ◌%◌, ◌^◌, ◌<◌, ◌≡◌, ◌≢◌, refl, arith, ap, sym, ◌∙◌}
use kados_ng.Base.{
  Bool, true, false, Option, none, some, List, [], ◌∷◌, ◌++◌, ltb, ◌==◌, ◌||◌, lt→ltb,
  if◌then◌else◌, get_elem?, set, replicate, length, length-set, get_elem?_of_lt, get_elem?-set_self,
  get_elem?-set_ne,
}
use kados_ng.Mem.Outcome.{Outcome, ok, panic}
use kados_ng.Paging.Monad.{M}

abbrev pub Irq : Type 0
Irq = ℕ

abbrev pub Handler : Type 0
Handler = ℕ

pub data IrqCell : Type 0 where
  l1 : ℕ → IrqCell
  l2 : ℕ → ℕ → IrqCell
  l3 : ℕ → ℕ → ℕ → IrqCell

pub record IrqHandlerDescriptor : Type 0 where
  pub index : ℕ
  pub chip_irq : Irq
  pub handler : Option Handler
  pub used : Bool

-- `IrqHandlerDescriptor::INIT`
abbrev pub init : IrqHandlerDescriptor
init = record { index = 0; chip_irq = 0; handler = none; used = false }

pub data Call : Type 0 where
  chip_enable : Irq → Call
  post_register_hook handle : Handler → Irq → Call

pub record IrqChipDescriptor : Type 0 where
  pub descs : List IrqHandlerDescriptor
  pub calls : List Call

-- `descs` as `IrqChipDescriptor::new` makes them, before the chip's `init`.
unfoldable pub new : IrqChipDescriptor
new = record { descs = replicate 1024 init; calls = [] }

abbrev pub called : List Call → IrqChipDescriptor → IrqChipDescriptor
called cs d = record d { calls = d.calls ++ cs }

-- `enables` says for which interrupts the `enable_irq` of the chip returns; for the others it panics.
abbrev pub enable_with :
    Bool → Irq → Handler → IrqChipDescriptor → Outcome (Unit {0}) × IrqChipDescriptor
enable_with true irq h d = (ok tt, called (chip_enable irq ∷ post_register_hook h irq ∷ []) d)
enable_with false irq h d = (panic, called (chip_enable irq ∷ []) d)

abbrev pub register_in :
    (Irq → Bool) → Option IrqHandlerDescriptor → Irq → Handler → M IrqChipDescriptor (Unit {0})
register_in enables none irq h d = (panic, d)
register_in enables (some desc) irq h d = elim desc.handler [
  | none ↦
      enable_with (enables irq) irq h
        (record d { descs = set d.descs irq (record desc { handler = some h }) })
  | some old ↦ (ok tt, d)
]

-- Past the end of `descs`, `register_irq` logs an error and then panics on the index.
unfoldable pub register_irq : (Irq → Bool) → Irq → Handler → M IrqChipDescriptor (Unit {0})
register_irq enables irq h d = register_in enables (get_elem? d.descs irq) irq h d

abbrev pub handle_by : Option Handler → Irq → M IrqChipDescriptor (Unit {0})
handle_by none irq d = (ok tt, d)
handle_by (some h) irq d = (ok tt, called (handle h irq ∷ []) d)

abbrev pub handle_in : Option IrqHandlerDescriptor → Irq → M IrqChipDescriptor (Unit {0})
handle_in none irq d = (panic, d)
handle_in (some desc) irq d = handle_by desc.handler irq d

unfoldable pub handle_irq : Irq → M IrqChipDescriptor (Unit {0})
handle_irq irq d = if ltb irq 1024 then handle_in (get_elem? d.descs irq) irq d else (ok tt, d)

-- `Gic::translate_irq` of arch/aarch64/gic.rs; `start` is `irq_range.start`.
abbrev pub gic_translate_irq : ℕ → IrqCell → Option Irq
gic_translate_irq start (l1 a) = none
gic_translate_irq start (l2 a b) = none
gic_translate_irq start (l3 a irq flags) =
    if (a == 0) || (a == 1) then some ((irq + start) % 2 ^ 32) else none

-- `IrqChipDescriptor::translate_irq`, with the chip's own translation as an argument.
abbrev pub translate_irq : (IrqCell → Option Irq) → List ℕ → Option Irq
translate_irq chip [] = none
translate_irq chip (a ∷ []) = chip (l1 a)
translate_irq chip (a ∷ b ∷ []) = chip (l2 a b)
translate_irq chip (a ∷ b ∷ c ∷ []) = chip (l3 a b c)
translate_irq chip (a ∷ b ∷ c ∷ d ∷ rest) = none

-- The handler that is registered for an interrupt.
abbrev pub handler_in : Option IrqHandlerDescriptor → Option Handler
handler_in none = none
handler_in (some desc) = desc.handler

abbrev pub handler_of : IrqChipDescriptor → Irq → Option Handler
handler_of d irq = handler_in (get_elem? d.descs irq)

-- What a registration leaves behind, if the chip enables the interrupt and if it panics.
abbrev pub Registered :
    Bool → Irq → Handler → IrqChipDescriptor → Outcome (Unit {0}) × IrqChipDescriptor → Type 0
Registered true irq h d r =
    (r.0 ≡ ok tt)
    × (r.1.calls ≡ d.calls ++ (chip_enable irq ∷ post_register_hook h irq ∷ []))
    × (handle_irq irq r.1 ≡ (ok tt, called (handle h irq ∷ []) r.1))
    × ((other : Irq) → irq ≢ other → handler_of r.1 other ≡ handler_of d other)
    × (length r.1.descs ≡ 1024)
Registered false irq h d r =
    (r.0 ≡ panic)
    × (r.1.calls ≡ d.calls ++ (chip_enable irq ∷ []))
    × (handler_of r.1 irq ≡ some h)
    × ((other : Irq) → irq ≢ other → handler_of r.1 other ≡ handler_of d other)
    × (length r.1.descs ≡ 1024)

some_desc :
    (d : IrqChipDescriptor) (irq : Irq)
    → length d.descs ≡ 1024
    → irq < 1024
    → (desc : IrqHandlerDescriptor) × (get_elem? d.descs irq ≡ some desc)
some_desc d irq l h = get_elem?_of_lt d.descs irq (omega (arith, l))

register_free :
    (enables : Irq → Bool) (d : IrqChipDescriptor) (irq : Irq) (h : Handler)
    (desc : IrqHandlerDescriptor)
    → length d.descs ≡ 1024
    → irq < 1024
    → get_elem? d.descs irq ≡ some desc
    → desc.handler ≡ none
    → Registered (enables irq) irq h d (register_irq enables irq h d)
unfolding register_irq handle_irq
register_free enables d irq h desc l b e n = rw (e, register_in, n) (either (enables irq))
  where
    stored :
        get_elem? (set d.descs irq (record desc { handler = some h })) irq
        ≡ some (record desc { handler = some h })
    stored = get_elem?-set_self d.descs irq _ (omega (arith, l))

    others :
        (other : Irq)
        → irq ≢ other
        → handler_in (get_elem? (set d.descs irq (record desc { handler = some h })) other)
          ≡ handler_of d other
    others other ne = ap handler_in (get_elem?-set_ne d.descs irq other _ ne)

    either :
        (b : Bool)
        → Registered b irq h d (
            enable_with b irq h
              (record d { descs = set d.descs irq (record desc { handler = some h }) }))
    either true =
        (refl, refl, rw (lt→ltb irq 1024 b, stored) refl, others, length-set d.descs irq _ ∙ l)
    either false = (refl, refl, ap handler_in stored, others, length-set d.descs irq _ ∙ l)

-- On 1024 descriptors, registering a handler for an interrupt below 1024 that has none stores the
-- handler and enables the interrupt. If the chip enables it, there is no panic: the handler's hook
-- is called next, and an occurrence of the interrupt then calls this handler. If the chip panics,
-- the registration does, the hook is not called, and the handler stays stored. The handlers of
-- other interrupts stay either way.
pub register_irq-Registered :
    (enables : Irq → Bool) (d : IrqChipDescriptor) (irq : Irq) (h : Handler)
    → length d.descs ≡ 1024
    → irq < 1024
    → handler_of d irq ≡ none
    → Registered (enables irq) irq h d (register_irq enables irq h d)
register_irq-Registered enables d irq h l b n =
    let (desc, e) = some_desc d irq l b in
    register_free enables d irq h desc l b e (ap handler_in (sym e) ∙ n)

-- An interrupt that has a handler keeps it: a second registration changes nothing.
pub register_irq_again :
    (enables : Irq → Bool) (d : IrqChipDescriptor) (irq : Irq) (h old : Handler)
    → handler_of d irq ≡ some old
    → register_irq enables irq h d ≡ (ok tt, d)
unfolding register_irq
register_irq_again enables d irq h old e = cases (get_elem? d.descs irq) e
  where
    cases :
        (o : Option IrqHandlerDescriptor)
        → handler_in o ≡ some old
        → register_in enables o irq h d ≡ (ok tt, d)
    cases none q = absurd (ground arith)
    cases (some desc) q = rw q refl
