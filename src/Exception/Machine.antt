-- ===== src/Exception/Machine.antt =====
-- The instructions of which the macros of arch/aarch64/vectors.rs are made, on the registers and the
-- words of 64 bits that stand on the stack.
use kados_ng.Base.{ℕ, ◌==◌, if◌then◌else◌, List, [], ◌∷◌}
use kados_ng.Arch.{wrapping_add, wrapping_sub}

pub data System : Type 0 where
  spsr_el1 elr_el1 sp_el0 esr_el1 : System

-- `str_pre a` is `str xa, [sp, #-16]!`, and `ldr_post a` is `ldr xa, [sp], #16`; so for pairs.
pub data Instr : Type 0 where
  str_pre ldr_post : ℕ → Instr
  stp_pre ldp_post : ℕ → ℕ → Instr
  mrs : ℕ → System → Instr
  msr : System → ℕ → Instr
  mov_from_sp : ℕ → Instr

pub record Cpu : Type 0 where
  pub x : ℕ → ℕ
  pub sp : ℕ
  pub spsr : ℕ
  pub elr : ℕ
  pub user_sp : ℕ
  pub esr : ℕ
  pub memory : ℕ → ℕ

abbrev pub update : (ℕ → ℕ) → ℕ → ℕ → ℕ → ℕ
update f a v b = if a == b then v else f b

abbrev pub read_system : System → Cpu → ℕ
read_system spsr_el1 c = c.spsr
read_system elr_el1 c = c.elr
read_system sp_el0 c = c.user_sp
read_system esr_el1 c = c.esr

abbrev pub write_system : System → ℕ → Cpu → Cpu
write_system spsr_el1 v c = record c { spsr = v }
write_system elr_el1 v c = record c { elr = v }
write_system sp_el0 v c = record c { user_sp = v }
write_system esr_el1 v c = record c { esr = v }

unfoldable pub step : Instr → Cpu → Cpu
step (str_pre a) c =
    let s = wrapping_sub c.sp 16 in record c { sp = s; memory = update c.memory s (c.x a) }
step (ldr_post a) c = record c { sp = wrapping_add c.sp 16; x = update c.x a (c.memory c.sp) }
step (stp_pre a b) c =
    let s = wrapping_sub c.sp 16 in
    record c { sp = s; memory = update (update c.memory s (c.x a)) (wrapping_add s 8) (c.x b) }
step (ldp_post a b) c = record c {
  sp = wrapping_add c.sp 16;
  x = update (update c.x a (c.memory c.sp)) b (c.memory (wrapping_add c.sp 8));
}
step (mrs a r) c = record c { x = update c.x a (read_system r c) }
step (msr r a) c = write_system r (c.x a) c
step (mov_from_sp a) c = record c { x = update c.x a c.sp }

abbrev pub run : List Instr → Cpu → Cpu
run [] c = c
run (i ∷ is) c = run is (step i c)
