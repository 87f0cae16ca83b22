-- ===== src/Tasks/Registers.antt =====
-- `ArchContext` and `switch_to_inner` of arch/aarch64/task.rs. The compiler lays a context out, so
-- its words are named by their fields.
use kados_ng.Base.{ℕ, ◌≡◌, ◌≢◌, ap, ◌∙◌, List, [], ◌∷◌, ◌==◌, ==_refl, ==_of_ne, if◌then◌else◌}

-- x29 and x30 are the fields `fp` and `lr`.
pub data Field : Type 0 where
  elr_el1 sp_el0 spsr_el1 esr_el1 sp lr fp : Field
  x28 x27 x26 x25 x24 x23 x22 x21 x20 x19 : Field

abbrev pub index : Field → ℕ
index elr_el1 = 0
index sp_el0 = 1
index spsr_el1 = 2
index esr_el1 = 3
index sp = 4
index lr = 5
index fp = 6
index x28 = 7
index x27 = 8
index x26 = 9
index x25 = 10
index x24 = 11
index x23 = 12
index x22 = 13
index x21 = 14
index x20 = 15
index x19 = 16

abbrev pub ArchContext : Type 0
ArchContext = Field → ℕ

abbrev pub set_field : Field → ℕ → ArchContext → ArchContext
set_field f v a g = if index f == index g then v else a g

-- The registers of the CPU that a context has fields for, x2, and the contexts under their addresses.
pub record Core : Type 0 where
  pub reg : ArchContext
  pub x2 : ℕ
  pub saved : ℕ → ArchContext

-- `str f` and `ldr f` access the field of the register in the contexts at x0 and x1; `str_x2` and
-- `ldr_x2` do so from and to x2. `get` is `mrs x2, f` or `mov x2, sp`, and `put` the opposite.
pub data Move : Type 0 where
  str ldr str_x2 ldr_x2 get put : Field → Move

abbrev pub store : ℕ → Field → ℕ → (ℕ → ArchContext) → ℕ → ArchContext
store p f v saved n = if p == n then set_field f v (saved n) else saved n

abbrev pub exec : ℕ → ℕ → Move → Core → Core
exec x0 x1 (str f) c = record c { saved = store x0 f (c.reg f) c.saved }
exec x0 x1 (ldr f) c = record c { reg = set_field f (c.saved x1 f) c.reg }
exec x0 x1 (str_x2 f) c = record c { saved = store x0 f c.x2 c.saved }
exec x0 x1 (ldr_x2 f) c = record c { x2 = c.saved x1 f }
exec x0 x1 (get f) c = record c { x2 = c.reg f }
exec x0 x1 (put f) c = record c { reg = set_field f c.x2 c.reg }

abbrev pub run : ℕ → ℕ → List Move → Core → Core
run x0 x1 [] c = c
run x0 x1 (m ∷ ms) c = run x0 x1 ms (exec x0 x1 m c)

abbrev pub moves : List Move
moves =
    str x19
    ∷ ldr x19
    ∷ str x20
    ∷ ldr x20
    ∷ str x21
    ∷ ldr x21
    ∷ str x22
    ∷ ldr x22
    ∷ str x23
    ∷ ldr x23
    ∷ str x24
    ∷ ldr x24
    ∷ str x25
    ∷ ldr x25
    ∷ str x26
    ∷ ldr x26
    ∷ str x27
    ∷ ldr x27
    ∷ str x28
    ∷ ldr x28
    ∷ str fp
    ∷ ldr fp
    ∷ str lr
    ∷ ldr lr
    ∷ get elr_el1
    ∷ str_x2 elr_el1
    ∷ ldr_x2 elr_el1
    ∷ put elr_el1
    ∷ get sp_el0
    ∷ str_x2 sp_el0
    ∷ ldr_x2 sp_el0
    ∷ put sp_el0
    ∷ get spsr_el1
    ∷ str_x2 spsr_el1
    ∷ ldr_x2 spsr_el1
    ∷ put spsr_el1
    ∷ get esr_el1
    ∷ str_x2 esr_el1
    ∷ ldr_x2 esr_el1
    ∷ put esr_el1
    ∷ get sp
    ∷ str_x2 sp
    ∷ ldr_x2 sp
    ∷ put sp
    ∷ []

unfoldable pub switch_to_inner : ℕ → ℕ → Core → Core
switch_to_inner prev next c = run prev next moves c

-- The registers are those of the next context afterwards.
pub switch_to_inner-loads :
    (prev next : ℕ) (c : Core) (f : Field)
    → prev ≢ next
    → (switch_to_inner prev next c).reg f ≡ c.saved next f
unfolding switch_to_inner
switch_to_inner-loads prev next c sp ne = rw (==_of_ne prev next ne)
switch_to_inner-loads prev next c _ ne = rw (==_of_ne prev next ne)

-- The registers of before are in the previous context.
pub switch_to_inner-stores :
    (prev next : ℕ) (c : Core) (f : Field)
    → prev ≢ next
    → (switch_to_inner prev next c).saved prev f ≡ c.reg f
unfolding switch_to_inner
switch_to_inner-stores prev next c sp ne = rw (==_refl prev)
switch_to_inner-stores prev next c _ ne = rw (==_refl prev)

-- The other contexts stay.
pub switch_to_inner_other :
    (prev next other : ℕ) (c : Core)
    → prev ≢ other
    → (switch_to_inner prev next c).saved other ≡ c.saved other
unfolding switch_to_inner
switch_to_inner_other prev next other c ne = rw (==_of_ne prev other ne)

-- A context that was switched away from, and that nobody writes to until it is switched to, goes on
-- with the registers that it had.
pub switch_to_inner_resumes :
    (p next prev : ℕ) (c d : Core)
    → p ≢ next
    → prev ≢ p
    → d.saved p ≡ (switch_to_inner p next c).saved p
    → (f : Field) → (switch_to_inner prev p d).reg f ≡ c.reg f
switch_to_inner_resumes p next prev c d ne ne' same f =
    switch_to_inner-loads prev p d f ne'
    ∙ (ap (λ (a : ArchContext). a f) same ∙ switch_to_inner-stores p next c f ne)
