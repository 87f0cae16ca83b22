-- ===== src/Mem/Outcome.antt =====
-- `MemError` of crates/kernel/src/mem/mod.rs, and what a call can end in: a value, an error that is
-- returned, or a panic (`unwrap`, `expect`, a slice index out of range).
use kados_ng.Base.{Option, none, some, ℕ, Bool, false}

pub data MemError : Type 0 where
  non_canonical_phys_addr : ℕ → MemError
  non_canonical_virt_addr : ℕ → MemError
  null_virt_addr : MemError
  unaligned_virt_addr : ℕ → ℕ → MemError
  page_not_present : ℕ → MemError
  huge_page : MemError
  invalid_page_table_index : ℕ → MemError
  no_next_table : MemError
  not_part_of_table : ℕ → ℕ → MemError
  page_already_mapped : ℕ → ℕ → MemError
  out_of_memory : MemError

pub data Outcome {ℓ} (A : Type ℓ) : Type ℓ where
  ok : A → Outcome A
  err : MemError → Outcome A
  panic : Outcome A

-- `Result::is_ok_and`.
abbrev pub is_ok_and {ℓ} : {A : Type ℓ} → Outcome A → (A → Bool) → Bool
is_ok_and (ok a) p = p a
is_ok_and (err e) p = false
is_ok_and panic p = false

-- `Result::unwrap`.
abbrev pub unwrap {ℓ} : {A : Type ℓ} → Outcome A → Outcome A
unwrap (ok a) = ok a
unwrap (err e) = panic
unwrap panic = panic

-- `Option::ok_or`.
abbrev pub ok_or {ℓ} : {A : Type ℓ} → Option A → MemError → Outcome A
ok_or (some a) e = ok a
ok_or none e = err e
