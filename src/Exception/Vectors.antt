-- ===== src/Exception/Vectors.antt =====
-- The macros of arch/aarch64/vectors.rs that save and restore the registers around a handler, and the
-- decoding of the syndrome register.
use kados_ng.Base.{
  ℕ, ◌+◌, ◌-◌, ◌*◌, ◌/◌, ◌%◌, ◌^◌, List, [], ◌∷◌, ◌++◌, ltb, leb, ◌==◌, ◌&&◌, Bool, if◌then◌else◌,
}
use kados_ng.Exception.Machine.{
  spsr_el1, elr_el1, sp_el0, esr_el1, Instr, str_pre, ldr_post, stp_pre, ldp_post, mrs, msr,
  mov_from_sp, Cpu, run, update,
}

abbrev pub push_scratch : List Instr
push_scratch =
    str_pre 18
    ∷ stp_pre 16 17
    ∷ stp_pre 14 15
    ∷ stp_pre 12 13
    ∷ stp_pre 10 11
    ∷ stp_pre 8 9
    ∷ stp_pre 6 7
    ∷ stp_pre 4 5
    ∷ stp_pre 2 3
    ∷ stp_pre 0 1
    ∷ []

abbrev pub pop_scratch : List Instr
pop_scratch =
    ldp_post 0 1
    ∷ ldp_post 2 3
    ∷ ldp_post 4 5
    ∷ ldp_post 6 7
    ∷ ldp_post 8 9
    ∷ ldp_post 10 11
    ∷ ldp_post 12 13
    ∷ ldp_post 14 15
    ∷ ldp_post 16 17
    ∷ ldr_post 18
    ∷ []

abbrev pub push_preserved : List Instr
push_preserved =
    stp_pre 29 30
    ∷ stp_pre 27 28
    ∷ stp_pre 25 26
    ∷ stp_pre 23 24
    ∷ stp_pre 21 22
    ∷ stp_pre 19 20
    ∷ []

abbrev pub pop_preserved : List Instr
pop_preserved =
    ldp_post 19 20
    ∷ ldp_post 21 22
    ∷ ldp_post 23 24
    ∷ ldp_post 25 26
    ∷ ldp_post 27 28
    ∷ ldp_post 29 30
    ∷ []

abbrev pub push_special : List Instr
push_special =
    mrs 14 spsr_el1
    ∷ mrs 15 elr_el1
    ∷ stp_pre 14 15
    ∷ mrs 14 sp_el0
    ∷ mrs 15 esr_el1
    ∷ stp_pre 14 15
    ∷ []

abbrev pub pop_special : List Instr
pop_special =
    ldp_post 14 15
    ∷ msr esr_el1 15
    ∷ msr sp_el0 14
    ∷ ldp_post 14 15
    ∷ msr elr_el1 15
    ∷ msr spsr_el1 14
    ∷ []

-- `exception_stack`, before and after the call of the handler.
abbrev pub before_inner : List Instr
before_inner =
    push_preserved ++ (push_scratch ++ (push_special ++ mov_from_sp 29 ∷ mov_from_sp 0 ∷ []))

abbrev pub after_inner : List Instr
after_inner = pop_special ++ (pop_scratch ++ pop_preserved)

-- The registers when `eret` is reached.
unfoldable pub exception_stack : (Cpu → Cpu) → Cpu → Cpu
exception_stack inner c = run after_inner (inner (run before_inner c))

-- Where the fields of an `InterruptFrame` stand in it, which is packed: a word of padding follows x18.
abbrev pub sp_el0_offset : ℕ
sp_el0_offset = 0

abbrev pub esr_el1_offset : ℕ
esr_el1_offset = 8

abbrev pub spsr_el1_offset : ℕ
spsr_el1_offset = 16

abbrev pub elr_el1_offset : ℕ
elr_el1_offset = 24

abbrev pub x_offset : ℕ → ℕ
x_offset r = if ltb r 19 then 32 + r * 8 else 192 + (r - 19) * 8

abbrev pub frame_size : ℕ
frame_size = 288

abbrev pub set_stack_pointer : ℕ → ℕ → (ℕ → ℕ) → ℕ → ℕ
set_stack_pointer frame sp m = update m (frame + sp_el0_offset) sp

abbrev pub set_instr_pointer : ℕ → ℕ → (ℕ → ℕ) → ℕ → ℕ
set_instr_pointer frame pc m = update m (frame + elr_el1_offset) pc

abbrev pub stack_pointer : ℕ → (ℕ → ℕ) → ℕ
stack_pointer frame m = m (frame + sp_el0_offset)

abbrev pub instr_pointer : ℕ → (ℕ → ℕ) → ℕ
instr_pointer frame m = m (frame + elr_el1_offset)

unfoldable pub exception_code : ℕ → ℕ
exception_code esr = (esr / 2 ^ 26) % 64

pub data Fault : Type 0 where
  page_not_present permission_fault access_flag_fault unhandled_fault : Fault

-- The function that `__sync_current_el_spx` calls, with whether a write was the cause and the code.
unfoldable pub classify : ℕ → Fault × Bool × ℕ
classify esr =
    let iss = esr % 2 ^ 25 in
    let write = (iss / 2 ^ 6) % 2 == 1 in
    let dfsc = iss % 64 in
    (
      (if leb dfsc 3
          then page_not_present
          else if leb 13 dfsc && leb dfsc 15
          then permission_fault
          else if leb 9 dfsc && leb dfsc 11
          then access_flag_fault
          else unhandled_fault),
      write,
      dfsc,
    )
