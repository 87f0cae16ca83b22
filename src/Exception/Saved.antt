-- ===== src/Exception/Saved.antt =====
-- What instructions that push registers leave on the stack, for the instructions that pop them.
use kados_ng.Base.{
  ℕ, ◌+◌, ◌-◌, ◌*◌, ◌^◌, ◌<◌, ◌≤◌, ◌≡◌, ◌⊎◌, inl, inr, refl, sym, ap, ◌∙◌, ==_iff, arith, Bool,
  true, false, ◌||◌, List, [], ◌∷◌, length, ◌==◌, if◌then◌else◌,
}
use mathlib.Core.Path.{subst}
use kados_ng.Arch.{wrapping_add, wrapping_sub}
use kados_ng.Exception.Machine.{
  Instr, str_pre, ldr_post, stp_pre, ldp_post, mrs, msr, mov_from_sp, Cpu, step, run, update,
}

-- The words from `s` on are those of `x` in the order in which the instructions pop them.
abbrev pub Saved : List Instr → (ℕ → ℕ) → ℕ → (ℕ → ℕ) → Type 0
Saved [] x s m = Unit
Saved (ldr_post a ∷ is) x s m = (m s ≡ x a) × Saved is x (s + 16) m
Saved (ldp_post a b ∷ is) x s m = (m s ≡ x a) × (m (s + 8) ≡ x b) × Saved is x (s + 16) m
Saved (_ ∷ is) x s m = ⊥

-- The registers that the instructions pop.
abbrev pub restores : List Instr → ℕ → Bool
restores [] r = false
restores (ldr_post a ∷ is) r = (a == r) || restores is r
restores (ldp_post a b ∷ is) r = (a == r) || ((b == r) || restores is r)
restores (_ ∷ is) r = restores is r

-- The pops that undo pushes, which come before those that are given.
abbrev pub undo : List Instr → List Instr → List Instr
undo [] is = is
undo (str_pre a ∷ ps) is = undo ps (ldr_post a ∷ is)
undo (stp_pre a b ∷ ps) is = undo ps (ldp_post a b ∷ is)
undo (_ ∷ ps) is = undo ps is

abbrev pub ArePushes : List Instr → Type 0
ArePushes [] = Unit
ArePushes (str_pre a ∷ ps) = ArePushes ps
ArePushes (stp_pre a b ∷ ps) = ArePushes ps
ArePushes (_ ∷ ps) = ⊥

abbrev pub room : List Instr → ℕ
room is = 16 * length is

pub wrapping_sub_le : (a b : ℕ) → b ≤ a → a < 2 ^ 64 → wrapping_sub a b ≡ a - b
wrapping_sub_le a b h l = omega arith

pub wrapping_add_lt : (a b : ℕ) → a + b < 2 ^ 64 → wrapping_add a b ≡ a + b
wrapping_add_lt a b h = omega arith

-- A memory with the same words from `s` to `t` holds the same.
pub Saved-agree :
    (is : List Instr) (x : ℕ → ℕ) (s t : ℕ) (m n : ℕ → ℕ)
    → s + room is ≤ t
    → ((q : ℕ) → s ≤ q → q < t → n q ≡ m q)
    → Saved is x s m
    → Saved is x s n
Saved-agree [] x s t m n h same v = tt
Saved-agree (ldr_post a ∷ is) x s t m n h same (v, vs) = (
  rw (same s (omega arith) (omega arith)) v,
  Saved-agree is x (s + 16) t m n (omega arith) (λ q l u. same q (omega arith) u) vs,
)
Saved-agree (ldp_post a b ∷ is) x s t m n h same (v, w, vs) = (
  rw (same s (omega arith) (omega arith)) v,
  rw (same (s + 8) (omega arith) (omega arith)) w,
  Saved-agree is x (s + 16) t m n (omega arith) (λ q l u. same q (omega arith) u) vs,
)
Saved-agree (str_pre a ∷ is) x s t m n h same v = absurd v
Saved-agree (stp_pre a b ∷ is) x s t m n h same v = absurd v
Saved-agree (mrs a r ∷ is) x s t m n h same v = absurd v
Saved-agree (msr r a ∷ is) x s t m n h same v = absurd v
Saved-agree (mov_from_sp a ∷ is) x s t m n h same v = absurd v

-- A register is loaded with its value; the others keep what they have.
loaded :
    (f x : ℕ → ℕ) (a r w : ℕ) (rest test : Bool)
    → w ≡ x a
    → (a == r) ≡ test
    → ((test || rest) ≡ true) ⊎ (f r ≡ x r)
    → (rest ≡ true) ⊎ ((if test then w else f r) ≡ x r)
loaded f x a r w rest true e t p = inr (e ∙ ap x ((==_iff a r).0 t))
loaded f x a r w rest false e t p = p

-- A register that is popped, or has its value already, has it after the pops.
pub run-Saved :
    (is : List Instr) (x : ℕ → ℕ) (c : Cpu) (r : ℕ)
    → c.sp + room is < 2 ^ 64
    → Saved is x c.sp c.memory
    → (restores is r ≡ true) ⊎ (c.x r ≡ x r)
    → (run is c).x r ≡ x r
unfolding step
run-Saved [] x c r h v (inl p) = cc
run-Saved [] x c r h v (inr p) = p
run-Saved (ldr_post a ∷ is) x c r h (v, vs) p =
    let e = wrapping_add_lt c.sp 16 (omega arith) in
    run-Saved is x (step (ldr_post a) c) r (rw e (omega arith))
      (subst (λ s. Saved is x s c.memory) (sym e) vs)
      (loaded c.x x a r (c.memory c.sp) (restores is r) (a == r) v refl p)
run-Saved (ldp_post a b ∷ is) x c r h (v, w, vs) p =
    let e = wrapping_add_lt c.sp 16 (omega arith) in
    let first : ((b == r) || restores is r ≡ true) ⊎ (update c.x a (c.memory c.sp) r ≡ x r) =
      loaded c.x x a r (c.memory c.sp) ((b == r) || restores is r) (a == r) v refl p in
    run-Saved is x (step (ldp_post a b) c) r (rw e (omega arith))
      (subst (λ s. Saved is x s c.memory) (sym e) vs)
      (loaded (update c.x a (c.memory c.sp)) x b r (c.memory (wrapping_add c.sp 8)) (restores is r)
        (b == r) (rw (wrapping_add_lt c.sp 8 (omega arith)) w) refl first)
run-Saved (str_pre a ∷ is) x c r h v p = absurd v
run-Saved (stp_pre a b ∷ is) x c r h v p = absurd v
run-Saved (mrs a s ∷ is) x c r h v p = absurd v
run-Saved (msr s a ∷ is) x c r h v p = absurd v
run-Saved (mov_from_sp a ∷ is) x c r h v p = absurd v

-- The system registers are the same.
pub record SameSystem (c d : Cpu) : Type 0 where
  pub spsr : d.spsr ≡ c.spsr
  pub elr : d.elr ≡ c.elr
  pub user_sp : d.user_sp ≡ c.user_sp
  pub esr : d.esr ≡ c.esr

-- Nothing but the registers that are popped and the stack pointer changes.
pub run-Saved_rest :
    (is : List Instr) (x : ℕ → ℕ) (c : Cpu)
    → c.sp + room is < 2 ^ 64
    → Saved is x c.sp c.memory
    → ((run is c).sp ≡ c.sp + room is) × ((run is c).memory ≡ c.memory) × SameSystem c (run is c)
unfolding step
run-Saved_rest [] x c h v =
    (omega arith, refl, record { spsr = refl; elr = refl; user_sp = refl; esr = refl })
run-Saved_rest (ldr_post a ∷ is) x c h (v, vs) =
    let e = wrapping_add_lt c.sp 16 (omega arith) in
    let (s, m, same) =
      run-Saved_rest is x (step (ldr_post a) c) (rw e (omega arith))
        (subst (λ s. Saved is x s c.memory) (sym e) vs) in
    (
      omega (arith, s, e),
      m,
      record { spsr = same.spsr; elr = same.elr; user_sp = same.user_sp; esr = same.esr },
    )
run-Saved_rest (ldp_post a b ∷ is) x c h (v, w, vs) =
    let e = wrapping_add_lt c.sp 16 (omega arith) in
    let (s, m, same) =
      run-Saved_rest is x (step (ldp_post a b) c) (rw e (omega arith))
        (subst (λ s. Saved is x s c.memory) (sym e) vs) in
    (
      omega (arith, s, e),
      m,
      record { spsr = same.spsr; elr = same.elr; user_sp = same.user_sp; esr = same.esr },
    )
run-Saved_rest (str_pre a ∷ is) x c h v = absurd v
run-Saved_rest (stp_pre a b ∷ is) x c h v = absurd v
run-Saved_rest (mrs a s ∷ is) x c h v = absurd v
run-Saved_rest (msr s a ∷ is) x c h v = absurd v
run-Saved_rest (mov_from_sp a ∷ is) x c h v = absurd v
