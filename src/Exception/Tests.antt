-- ===== src/Exception/Tests.antt =====
-- A handler that overwrites all registers, and the decoding of faults (arch/aarch64/vectors.rs).
use kados_ng.Base.{ℕ, ◌+◌, ◌*◌, ◌^◌, ◌≡◌, refl, arith, true, false}
use kados_ng.Exception.Machine.{Cpu, run}
use kados_ng.Exception.Vectors.{
  before_inner, exception_stack, exception_code, permission_fault, unhandled_fault, classify,
}
use kados_ng.Exception.Handler.{Framed, Restored, exception_stack-Restored}

abbrev task : Cpu
task = record {
  x = λ r. 100 + r;
  sp = 0x8000;
  spsr = 5;
  elr = 0x4000;
  user_sp = 0x7000;
  esr = 0;
  memory = λ q. q;
}

abbrev overwrite : Cpu → Cpu
overwrite c = record c { x = λ r. 7; spsr = 1; elr = 2 }

exception_stack-Restored_example :
    Framed task (run before_inner task) × Restored task (exception_stack overwrite task)
exception_stack-Restored_example =
    exception_stack-Restored overwrite task (omega arith) (omega arith)
      (record { sp = refl; frame = λ q a b. refl })

-- A write that faults because of a permission at level 3, in the current exception level.
abbrev permission_syndrome : ℕ
permission_syndrome = 0x25 * 2 ^ 26 + 2 ^ 6 + 15

code_is_data_abort : exception_code permission_syndrome ≡ 0x25
unfolding exception_code
code_is_data_abort = refl

permission_is_classified : classify permission_syndrome ≡ (permission_fault, true, 15)
unfolding classify
permission_is_classified = refl

-- The code 7 is that of a translation fault at level 3.
translation_is_unhandled : classify (0x25 * 2 ^ 26 + 7) ≡ (unhandled_fault, false, 7)
unfolding classify
translation_is_unhandled = refl
