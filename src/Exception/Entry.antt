-- ===== src/Exception/Entry.antt =====
-- The code around a handler, `exception_stack` of arch/aarch64/vectors.rs: the frame that the handler
-- is given, and what is loaded from it before `eret`.
use mathlib.Core.Path.{subst}
use kados_ng.Base.{
  ℕ, zero, suc, ◌+◌, ◌-◌, ◌^◌, ◌<◌, ◌≤◌, ◌≡◌, inl, refl, sym, ap, ◌∙◌, arith, Bool, true, false,
  ◌&&◌, List, [], ◌∷◌, ◌++◌, ◌==◌, ==_iff,
}
use kados_ng.Exception.Machine.{
  Instr, str_pre, ldr_post, stp_pre, ldp_post, mrs, msr, mov_from_sp, Cpu, step, run,
}
use kados_ng.Exception.Vectors.{pop_scratch, pop_preserved, push_special, pop_special, x_offset}
use kados_ng.Exception.Saved.{Saved, restores, run-Saved}

abbrev pub pops : List Instr
pops = pop_scratch ++ pop_preserved

-- The pops load each register from its place in the frame, from offset `k` on.
abbrev pub placed : List Instr → ℕ → Bool
placed [] k = true
placed (ldr_post a ∷ is) k = (x_offset a == k) && placed is (k + 16)
placed (ldp_post a b ∷ is) k = (x_offset a == k) && ((x_offset b == k + 8) && placed is (k + 16))
placed (_ ∷ is) k = false

and_left : (a b : Bool) → (a && b) ≡ true → a ≡ true
and_left a b h = ground arith

and_right : (a b : Bool) → (a && b) ≡ true → b ≡ true
and_right a b h = ground arith

at_offset : (m : ℕ → ℕ) (s k a : ℕ) → (x_offset a == k) ≡ true → m (s + k) ≡ m (s + x_offset a)
at_offset m s k a h = ap (λ t. m (s + t)) (sym ((==_iff (x_offset a) k).0 h))

pub placed-Saved :
    (is : List Instr) (m : ℕ → ℕ) (s k : ℕ)
    → placed is k ≡ true
    → Saved is (λ r. m (s + x_offset r)) (s + k) m
placed-Saved [] m s k h = tt
placed-Saved (ldr_post a ∷ is) m s k h = (
  at_offset m s k a (and_left (x_offset a == k) (placed is (k + 16)) h),
  subst (λ t. Saved is (λ r. m (s + x_offset r)) t m) (omega arith)
      (placed-Saved is m s (k + 16) (and_right (x_offset a == k) (placed is (k + 16)) h)),
)
placed-Saved (ldp_post a b ∷ is) m s k h =
    let rest = and_right (x_offset a == k) ((x_offset b == k + 8) && placed is (k + 16)) h in
    (
      at_offset m s k a
          (and_left (x_offset a == k) ((x_offset b == k + 8) && placed is (k + 16)) h),
      ap m (omega arith)
          ∙ at_offset m s (k + 8) b (and_left (x_offset b == k + 8) (placed is (k + 16)) rest),
      subst (λ t. Saved is (λ r. m (s + x_offset r)) t m) (omega arith)
          (placed-Saved is m s (k + 16)
            (and_right (x_offset b == k + 8) (placed is (k + 16)) rest)),
    )
placed-Saved (str_pre a ∷ is) m s k h = absurd (ground arith)
placed-Saved (stp_pre a b ∷ is) m s k h = absurd (ground arith)
placed-Saved (mrs a r ∷ is) m s k h = absurd (ground arith)
placed-Saved (msr r a ∷ is) m s k h = absurd (ground arith)
placed-Saved (mov_from_sp a ∷ is) m s k h = absurd (ground arith)

all_below : ℕ → (ℕ → Bool) → Bool
all_below zero p = true
all_below (suc n) p = p n && all_below n p

all_below_sound : (n : ℕ) (p : ℕ → Bool) (r : ℕ) → all_below n p ≡ true → r < n → p r ≡ true
unfolding all_below
all_below_sound zero p r h l = absurd (omega arith)
all_below_sound (suc n) p r h l = ground (arith, all_below_sound n p r)

pops_table : all_below 31 (restores pops) ≡ true
unfolding all_below
pops_table = refl

pub pops_all : (r : ℕ) → r < 31 → restores pops r ≡ true
pops_all r h = all_below_sound 31 (restores pops) r pops_table h

-- Words that are saved from offset 32 on stand where the frame has the registers.
pub word_in_frame :
    (x : ℕ → ℕ) (m : ℕ → ℕ) (s r : ℕ)
    → s + 288 < 2 ^ 64
    → r < 31
    → Saved pops x (s + 32) m
    → m (s + x_offset r) ≡ x r
word_in_frame x m s r h l v =
    let c : Cpu = record {
      x = x;
      sp = s + 32;
      spsr = 0;
      elr = 0;
      user_sp = 0;
      esr = 0;
      memory = m;
    } in
    sym (
      run-Saved pops (λ r. m (s + x_offset r)) c r (omega arith) (placed-Saved pops m s 32 refl)
        (inl (pops_all r l)))
    ∙ run-Saved pops x c r (omega arith) v (inl (pops_all r l))

-- `push_special` and the two moves after it.
abbrev pub rest_of_entry : List Instr
rest_of_entry = push_special ++ mov_from_sp 29 ∷ mov_from_sp 0 ∷ []

pub record Pushed (p d : Cpu) : Type 0 where
  pub sp : d.sp ≡ p.sp - 32
  pub frame : d.x 0 ≡ p.sp - 32
  pub user_sp : d.memory (p.sp - 32) ≡ p.user_sp
  pub esr : d.memory (p.sp - 32 + 8) ≡ p.esr
  pub spsr : d.memory (p.sp - 32 + 16) ≡ p.spsr
  pub elr : d.memory (p.sp - 32 + 24) ≡ p.elr
  pub above : (q : ℕ) → p.sp ≤ q → d.memory q ≡ p.memory q

pub rest_of_entry-Pushed : (p : Cpu) → 32 ≤ p.sp → p.sp < 2 ^ 64 → Pushed p (run rest_of_entry p)
unfolding step
rest_of_entry-Pushed p h l = record {
  sp = omega arith;
  frame = omega arith;
  user_sp = ground arith;
  esr = ground arith;
  spsr = ground arith;
  elr = ground arith;
  above = λ q u. ground arith;
}

pub record Popped (h e : Cpu) : Type 0 where
  pub sp : e.sp ≡ h.sp + 32
  pub user_sp : e.user_sp ≡ h.memory h.sp
  pub esr : e.esr ≡ h.memory (h.sp + 8)
  pub spsr : e.spsr ≡ h.memory (h.sp + 16)
  pub elr : e.elr ≡ h.memory (h.sp + 24)
  pub memory : e.memory ≡ h.memory

pub pop_special-Popped : (h : Cpu) → h.sp + 32 < 2 ^ 64 → Popped h (run pop_special h)
unfolding step
pop_special-Popped h l = record {
  sp = omega arith;
  user_sp = refl;
  esr = ap h.memory (omega arith);
  spsr = ap h.memory (omega arith);
  elr = ap h.memory (omega arith);
  memory = refl;
}
