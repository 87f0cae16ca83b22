-- ===== src/Exception/Handler.antt =====
-- What `exception_stack` of arch/aarch64/vectors.rs gives a handler, and what it restores after it.
use mathlib.Core.Path.{subst}
use kados_ng.Base.{ℕ, ◌+◌, ◌-◌, ◌^◌, ◌<◌, ◌≤◌, ◌≡◌, inl, refl, sym, ap, ◌∙◌, arith, [], ◌++◌}
use kados_ng.Exception.Machine.{Cpu, run}
use kados_ng.Exception.Vectors.{
  push_scratch, push_preserved, pop_special, before_inner, after_inner, exception_stack, x_offset,
  esr_el1_offset, spsr_el1_offset, stack_pointer, instr_pointer, frame_size,
}
use kados_ng.Exception.Saved.{Saved, Saved-agree, SameSystem, run-Saved, run-Saved_rest}
use kados_ng.Exception.Pushes.{run-ArePushes, run-ArePushes_above}
use kados_ng.Exception.Entry.{
  pops, placed-Saved, pops_all, word_in_frame, Pushed, rest_of_entry-Pushed, Popped,
  pop_special-Popped,
}

-- The handler is given the address of an `InterruptFrame` on the stack that holds the registers.
pub record Framed (c d : Cpu) : Type 0 where
  pub argument : d.x 0 ≡ d.sp
  pub sp : d.sp + frame_size ≡ c.sp
  pub x : (r : ℕ) → r < 31 → d.memory (d.sp + x_offset r) ≡ c.x r
  pub user_sp : stack_pointer d.sp d.memory ≡ c.user_sp
  pub esr : d.memory (d.sp + esr_el1_offset) ≡ c.esr
  pub spsr : d.memory (d.sp + spsr_el1_offset) ≡ c.spsr
  pub elr : instr_pointer d.sp d.memory ≡ c.elr
  pub above : (q : ℕ) → c.sp ≤ q → d.memory q ≡ c.memory q

-- The registers at `eret` are those that the frame holds when the handler returns.
pub record Loaded (h e : Cpu) : Type 0 where
  pub x : (r : ℕ) → r < 31 → e.x r ≡ h.memory (h.sp + x_offset r)
  pub sp : e.sp ≡ h.sp + frame_size
  pub user_sp : e.user_sp ≡ stack_pointer h.sp h.memory
  pub esr : e.esr ≡ h.memory (h.sp + esr_el1_offset)
  pub spsr : e.spsr ≡ h.memory (h.sp + spsr_el1_offset)
  pub elr : e.elr ≡ instr_pointer h.sp h.memory
  pub memory : e.memory ≡ h.memory

after_special : (h e : Cpu) → h.sp + frame_size < 2 ^ 64 → Popped h e → Loaded h (run pops e)
after_special h e l p =
    let v : Saved pops (λ r. h.memory (h.sp + x_offset r)) e.sp e.memory =
      rw (p.sp, p.memory) (placed-Saved pops h.memory h.sp 32 refl) in
    let (s, m, same) =
      run-Saved_rest pops (λ r. h.memory (h.sp + x_offset r)) e (omega (arith, p.sp)) v in
    record {
      x = λ r b.
          run-Saved pops (λ r. h.memory (h.sp + x_offset r)) e r (omega (arith, p.sp)) v
            (inl (pops_all r b));
      sp = omega (arith, s, p.sp);
      user_sp = same.user_sp ∙ (p.user_sp ∙ ap h.memory (omega arith));
      esr = same.esr ∙ p.esr;
      spsr = same.spsr ∙ p.spsr;
      elr = same.elr ∙ p.elr;
      memory = m ∙ p.memory;
    }

after_inner-Loaded : (h : Cpu) → h.sp + frame_size < 2 ^ 64 → Loaded h (run after_inner h)
after_inner-Loaded h l = after_special h (run pop_special h) l (pop_special-Popped h (omega arith))

with_special :
    (c p d : Cpu)
    → frame_size ≤ c.sp
    → c.sp < 2 ^ 64
    → p.sp ≡ c.sp - 256
    → Saved pops c.x p.sp p.memory
    → SameSystem c p
    → ((q : ℕ) → c.sp ≤ q → p.memory q ≡ c.memory q)
    → Pushed p d
    → Framed c d
with_special c p d h l s v same above u = record {
  argument = u.frame ∙ sym u.sp;
  sp = omega (arith, u.sp, s);
  x = λ r b. word_in_frame c.x d.memory d.sp r (omega (arith, u.sp, s)) b (
      Saved-agree pops c.x (d.sp + 32) c.sp p.memory d.memory (omega (arith, u.sp, s))
        (λ q low high. u.above q (omega (arith, u.sp, s)))
        (subst (λ t. Saved pops c.x t p.memory) (omega (arith, u.sp, s)) v));
  user_sp = at_frame 0 p.user_sp (ap d.memory (omega arith) ∙ u.user_sp) ∙ same.user_sp;
  esr = at_frame 8 p.esr u.esr ∙ same.esr;
  spsr = at_frame 16 p.spsr u.spsr ∙ same.spsr;
  elr = at_frame 24 p.elr u.elr ∙ same.elr;
  above = λ q b. u.above q (omega (arith, s)) ∙ above q b;
}
  where
    at_frame : (k v : ℕ) → d.memory (p.sp - 32 + k) ≡ v → d.memory (d.sp + k) ≡ v
    at_frame k v e = ap (λ t. d.memory (t + k)) u.sp ∙ e

pub before_inner-Framed :
    (c : Cpu) → frame_size ≤ c.sp → c.sp < 2 ^ 64 → Framed c (run before_inner c)
before_inner-Framed c h l =
    let pushes = push_preserved ++ push_scratch in
    let (v, x, s, same) = run-ArePushes pushes [] c tt (omega arith) (omega arith) tt in
    with_special c (run pushes c) (run before_inner c) h l s v same
      (λ q b. run-ArePushes_above pushes c q tt (omega arith) l b)
      (rest_of_entry-Pushed (run pushes c) (omega (arith, s)) (omega (arith, s)))

-- The handler returns with its stack pointer, and leaves the words of the frame.
pub record Keeps (c d h : Cpu) : Type 0 where
  pub sp : h.sp ≡ d.sp
  pub frame : (q : ℕ) → d.sp ≤ q → q < c.sp → h.memory q ≡ d.memory q

pub record Restored (c e : Cpu) : Type 0 where
  pub x : (r : ℕ) → r < 31 → e.x r ≡ c.x r
  pub sp : e.sp ≡ c.sp
  pub user_sp : e.user_sp ≡ c.user_sp
  pub esr : e.esr ≡ c.esr
  pub spsr : e.spsr ≡ c.spsr
  pub elr : e.elr ≡ c.elr

restored : (c d h e : Cpu) → c.sp < 2 ^ 64 → Framed c d → Keeps c d h → Loaded h e → Restored c e
restored c d h e b f k l = record {
  x = λ r i. l.x r i ∙ (kept (x_offset r) (x_offset_lt r i) ∙ f.x r i);
  sp = omega (arith, l.sp, k.sp, f.sp);
  user_sp = l.user_sp ∙ (kept 0 (omega arith) ∙ f.user_sp);
  esr = l.esr ∙ (kept 8 (omega arith) ∙ f.esr);
  spsr = l.spsr ∙ (kept 16 (omega arith) ∙ f.spsr);
  elr = l.elr ∙ (kept 24 (omega arith) ∙ f.elr);
}
  where
    x_offset_lt : (r : ℕ) → r < 31 → x_offset r < frame_size
    x_offset_lt r i = ground arith

    kept : (n : ℕ) → n < frame_size → h.memory (h.sp + n) ≡ d.memory (d.sp + n)
    kept n i =
        ap (λ t. h.memory (t + n)) k.sp ∙ k.frame (d.sp + n) (omega arith) (omega (arith, f.sp))

-- Around any handler that returns with its stack pointer and leaves its frame, `exception_stack`
-- restores x0 to x30, the stack pointer and the four system registers, whatever else the handler
-- does. The handler is given a frame that holds them, at the offsets of `InterruptFrame`, and what
-- stood on the stack before is left for it. The stack has room for the frame.
pub exception_stack-Restored :
    (inner : Cpu → Cpu) (c : Cpu)
    → frame_size ≤ c.sp
    → c.sp < 2 ^ 64
    → Keeps c (run before_inner c) (inner (run before_inner c))
    → Framed c (run before_inner c) × Restored c (exception_stack inner c)
unfolding exception_stack
exception_stack-Restored inner c h l k =
    let d = run before_inner c in
    let f = before_inner-Framed c h l in
    (
      f,
      restored c d (inner d) (run after_inner (inner d)) l f k
          (after_inner-Loaded (inner d) (omega (arith, k.sp, f.sp))),
    )
