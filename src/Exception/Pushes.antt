-- ===== src/Exception/Pushes.antt =====
-- What pushes leave on the stack (the macros of arch/aarch64/vectors.rs).
use kados_ng.Base.{ℕ, ◌+◌, ◌-◌, ◌^◌, ◌<◌, ◌≤◌, ◌≡◌, refl, sym, ◌∙◌, arith, List, [], ◌∷◌}
use mathlib.Core.Path.{subst}
use kados_ng.Arch.{wrapping_add, wrapping_sub}
use kados_ng.Exception.Machine.{
  Instr, str_pre, ldr_post, stp_pre, ldp_post, mrs, msr, mov_from_sp, Cpu, step, run, update,
}
use kados_ng.Exception.Saved.{
  Saved, Saved-agree, undo, ArePushes, room, SameSystem, wrapping_add_lt, wrapping_sub_le,
}

update_other : (m : ℕ → ℕ) (a q v : ℕ) → a < q → update m a v q ≡ m q
update_other m a q v h = ground arith

update_self : (m : ℕ → ℕ) (a v : ℕ) → update m a v a ≡ v
update_self m a v = ground arith

back : (s : ℕ) → 16 ≤ s → s - 16 + 16 ≡ s
back s h = omega arith

-- A word, or two, below those that are saved.
word_below :
    (is : List Instr) (x : ℕ → ℕ) (s a : ℕ) (m : ℕ → ℕ)
    → 16 ≤ s
    → Saved is x s m
    → Saved (ldr_post a ∷ is) x (s - 16) (update m (s - 16) (x a))
word_below is x s a m h v = (
  update_self m (s - 16) (x a),
  subst (λ t. Saved is x t (update m (s - 16) (x a))) (sym (back s h))
      (Saved-agree is x s (s + room is) m (update m (s - 16) (x a)) (omega arith)
        (λ q l u. update_other m (s - 16) q (x a) (omega arith)) v),
)

pub pair_below :
    (is : List Instr) (x : ℕ → ℕ) (s a b : ℕ) (m : ℕ → ℕ)
    → 16 ≤ s
    → Saved is x s m
    → Saved (ldp_post a b ∷ is) x (s - 16) (update (update m (s - 16) (x a)) (s - 16 + 8) (x b))
pair_below is x s a b m h v = (
  ground (arith, update_self m (s - 16) (x a)),
  update_self (update m (s - 16) (x a)) (s - 16 + 8) (x b),
  subst (λ t. Saved is x t (update (update m (s - 16) (x a)) (s - 16 + 8) (x b))) (sym (back s h))
      (Saved-agree is x s (s + room is) m (update (update m (s - 16) (x a)) (s - 16 + 8) (x b))
        (omega arith)
        (λ q l u.
          update_other (update m (s - 16) (x a)) (s - 16 + 8) q (x b) (omega arith)
          ∙ update_other m (s - 16) q (x a) (omega arith))
        v),
)

-- Pushes leave the registers, and put their words below those that are saved already.
pub run-ArePushes :
    (ps is : List Instr) (c : Cpu)
    → ArePushes ps
    → room ps ≤ c.sp
    → c.sp + room is < 2 ^ 64
    → Saved is c.x c.sp c.memory
    → Saved (undo ps is) c.x (run ps c).sp (run ps c).memory
      × ((run ps c).x ≡ c.x)
      × ((run ps c).sp ≡ c.sp - room ps)
      × SameSystem c (run ps c)
unfolding step
run-ArePushes [] is c p h l v =
    (v, refl, omega arith, record { spsr = refl; elr = refl; user_sp = refl; esr = refl })
run-ArePushes (str_pre a ∷ ps) is c p h l v =
    let e = wrapping_sub_le c.sp 16 (omega arith) (omega arith) in
    let (saved, same, sp, rest) =
      run-ArePushes ps (ldr_post a ∷ is) (step (str_pre a) c) p (rw e (omega arith))
        (rw e (omega arith))
        (subst (λ s. Saved (ldr_post a ∷ is) c.x s (update c.memory s (c.x a))) (sym e)
          (word_below is c.x c.sp a c.memory (omega arith) v)) in
    (
      saved,
      same,
      omega (arith, sp, e),
      record { spsr = rest.spsr; elr = rest.elr; user_sp = rest.user_sp; esr = rest.esr },
    )
run-ArePushes (stp_pre a b ∷ ps) is c p h l v =
    let e = wrapping_sub_le c.sp 16 (omega arith) (omega arith) in
    let f = wrapping_add_lt (c.sp - 16) 8 (omega arith) in
    let (saved, same, sp, rest) =
      run-ArePushes ps (ldp_post a b ∷ is) (step (stp_pre a b) c) p (rw e (omega arith))
        (rw e (omega arith))
        (subst
          (λ s.
            Saved (ldp_post a b ∷ is) c.x s
              (update (update c.memory s (c.x a)) (wrapping_add s 8) (c.x b)))
          (sym e)
          (subst
            (λ t.
              Saved (ldp_post a b ∷ is) c.x (c.sp - 16)
                (update (update c.memory (c.sp - 16) (c.x a)) t (c.x b)))
            (sym f) (pair_below is c.x c.sp a b c.memory (omega arith) v))) in
    (
      saved,
      same,
      omega (arith, sp, e),
      record { spsr = rest.spsr; elr = rest.elr; user_sp = rest.user_sp; esr = rest.esr },
    )
run-ArePushes (ldr_post a ∷ ps) is c p h l v = absurd p
run-ArePushes (ldp_post a b ∷ ps) is c p h l v = absurd p
run-ArePushes (mrs a s ∷ ps) is c p h l v = absurd p
run-ArePushes (msr s a ∷ ps) is c p h l v = absurd p
run-ArePushes (mov_from_sp a ∷ ps) is c p h l v = absurd p

-- Nothing above the stack pointer changes.
pub run-ArePushes_above :
    (ps : List Instr) (c : Cpu) (q : ℕ)
    → ArePushes ps
    → room ps ≤ c.sp
    → c.sp < 2 ^ 64
    → c.sp ≤ q
    → (run ps c).memory q ≡ c.memory q
unfolding step
run-ArePushes_above [] c q p h l u = refl
run-ArePushes_above (str_pre a ∷ ps) c q p h l u =
    let e = wrapping_sub_le c.sp 16 (omega arith) l in
    run-ArePushes_above ps (step (str_pre a) c) q p (rw e (omega arith)) (rw e (omega arith))
      (rw e (omega arith))
    ∙ update_other c.memory (wrapping_sub c.sp 16) q (c.x a) (rw e (omega arith))
run-ArePushes_above (stp_pre a b ∷ ps) c q p h l u =
    let s = wrapping_sub c.sp 16 in
    let e = wrapping_sub_le c.sp 16 (omega arith) l in
    let f : wrapping_add s 8 < q = omega (arith, e) in
    run-ArePushes_above ps (step (stp_pre a b) c) q p (rw e (omega arith)) (rw e (omega arith))
      (rw e (omega arith))
    ∙ (update_other (update c.memory s (c.x a)) (wrapping_add s 8) q (c.x b) f
        ∙ update_other c.memory s q (c.x a) (omega (arith, e)))
run-ArePushes_above (ldr_post a ∷ ps) c q p h l u = absurd p
run-ArePushes_above (ldp_post a b ∷ ps) c q p h l u = absurd p
run-ArePushes_above (mrs a s ∷ ps) c q p h l u = absurd p
run-ArePushes_above (msr s a ∷ ps) c q p h l u = absurd p
run-ArePushes_above (mov_from_sp a ∷ ps) c q p h l u = absurd p
