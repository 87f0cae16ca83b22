-- ===== src/Panicking.antt =====
-- `unwind_kernel_stack` and `symbol_name` of crates/kernel/src/panicking.rs. The lines that are printed
-- for the frames are returned, with the names that the host sends for them before `demangle` has
-- them; the bytes that it sends are given. The lock of the UART is taken to be free.
mod Tests
use kados_ng.Base.{
  ℕ, zero, suc, ◌+◌, ◌-◌, ◌%◌, ◌^◌, ◌<◌, ◌≡◌, ◌≢◌, refl, arith, Bool, true, false, ◌&&◌, Option,
  none, some, List, [], ◌∷◌, ◌++◌, length, ltb, lt→ltb, ◌==◌, ==_of_ne, if◌then◌else◌, All, ◌≤◌, ap,
  ◌∙◌,
}
use kados_ng.Mem.Outcome.{Outcome, ok, err, panic}
use kados_ng.Mem.VirtAddr
use kados_ng.Mem.VirtAddr.{VirtAddr}
use kados_ng.Paging.Entry.{PageTableEntry, flags}
use kados_ng.Paging.Flags.{is_present}
use kados_ng.Paging.Monad.{M, bind, ◌>>=◌, pure}
use kados_ng.Paging.FrameSource.{FrameSource}
use kados_ng.Paging.Table.{TableKind, current, PageTable, State, translate}

-- A byte of the name, which is lost when there is no room for it.
abbrev pub with_byte : ℕ → ℕ → List ℕ → Option (List ℕ × List ℕ) → Option (List ℕ × List ℕ)
with_byte zero b bs rest = some ([], bs)
with_byte (suc room) b bs none = none
with_byte (suc room) b bs (some (name, left)) = some (b ∷ name, left)

-- The loop of `symbol_name` over the bytes that arrive, with the room that is left in the name:
-- the name and the bytes that are not read; `none` waits for more.
unfoldable pub read_name : ℕ → List ℕ → Option (List ℕ × List ℕ)
read_name room [] = none
read_name room (b ∷ bs) =
    let rest = with_byte room b bs (read_name (room - 1) bs) in
    if b == 10 then some ([], bs) else if ltb b 128 then rest else some ([], bs)

abbrev pub name_capacity : ℕ
name_capacity = 2048

-- A line of ASCII that has room is the name, and the next answer is left.
pub read_name-line :
    (room : ℕ) (name rest : List ℕ)
    → length name ≤ room
    → All (λ b. (b < 128) × (b ≢ 10)) name
    → read_name room (name ++ 10 ∷ rest) ≡ some (name, rest)
unfolding read_name
read_name-line room [] rest h a = refl
read_name-line zero (b ∷ name) rest h a = absurd (omega arith)
read_name-line (suc room) (b ∷ name) rest h ((l, ne), a) =
    rw (==_of_ne b 10 ne, lt→ltb b 128 l)
      (ap (with_byte (suc room) b (name ++ 10 ∷ rest)) (
        ap (λ k. read_name k (name ++ 10 ∷ rest)) (one_less room)
        ∙ read_name-line room name rest (omega arith) a))
  where
    one_less : (room : ℕ) → suc room - 1 ≡ room
    one_less room = omega arith

-- A line of the backtrace: the frame pointer, the address that is printed as PC, the return address
-- whose name is asked for and the answer; or the reason to stop.
pub data Line : Type 0 where
  frame : VirtAddr → VirtAddr → ℕ → List ℕ → Line
  empty_return guard_page : VirtAddr → Line

abbrev pub next_slot : ℕ → Option ℕ
next_slot fp = if ltb (fp + 8) (2 ^ 64) then some (fp + 8) else none

-- The answers of the host, a line for each name.
abbrev pub answers : List (ℕ × List ℕ) → List ℕ
answers [] = []
answers ((pc, name) ∷ frames) = name ++ 10 ∷ answers frames

-- `mapper` is the current kernel table, which TTBR1 holds; `low_load` says what a load from the low
-- half of the addresses gives, which TTBR0 translates.
module _ (src : FrameSource) (mapper : PageTable) (low_load : State src → VirtAddr → Option ℕ) where
  abbrev pub with_is_ok : Outcome PageTableEntry × State src → Outcome Bool × State src
  with_is_ok (ok e, s) = (ok true, s)
  with_is_ok (err e, s) = (ok false, s)
  with_is_ok (panic, s) = (panic, s)

  unfoldable pub is_mapped : VirtAddr → M (State src) Bool
  is_mapped addr s = with_is_ok (translate src mapper addr s)

  -- The condition of the loop's body, which stops at the first test that fails.
  abbrev pub both_mapped : VirtAddr → VirtAddr → M (State src) Bool
  both_mapped fp_va pc_va =
      is_mapped fp_va >>= λ mapped. if mapped then is_mapped pc_va else pure false

  abbrev pub readable : VirtAddr → VirtAddr → M (State src) Bool
  readable fp_va pc_va =
      if VirtAddr.is_aligned fp_va 8 && VirtAddr.is_aligned pc_va 8
      then both_mapped fp_va pc_va
      else pure false

  abbrev pub present_word : Outcome PageTableEntry → ℕ → Option ℕ
  present_word (ok e) word = if is_present (flags e) then some word else none
  present_word (err e) word = none
  present_word panic word = none

  -- A load as the MMU makes it from pages of 4 KiB, the only ones that `is_mapped` lets through;
  -- `none` is a fault. `translate` succeeds at an entry that is not present too, and there the load
  -- faults.
  unfoldable pub load : State src → VirtAddr → Option ℕ
  load s addr =
      if ltb addr (2 ^ 63)
      then low_load s addr
      else present_word (translate src mapper addr s).0 (s.memory addr)

  -- From the bytes that arrive: the lines, or `none` if the host is waited for.
  abbrev pub Trace : Type 0
  Trace = List ℕ → M (State src) (Option (List Line))

  abbrev pub with_line :
      Line → Outcome (Option (List Line)) × State src → Outcome (Option (List Line)) × State src
  with_line line (ok (some lines), s) = (ok (some (line ∷ lines)), s)
  with_line line (ok none, s) = (ok none, s)
  with_line line (err e, s) = (err e, s)
  with_line line (panic, s) = (panic, s)

  abbrev pub follow : (ℕ → Trace) → Line → Option ℕ → Trace
  follow next line none input s = (panic, s)
  follow next line (some fp) input s = with_line line (next fp input s)

  abbrev pub with_name :
      (ℕ → Trace) → ℕ → ℕ → ℕ → Option (List ℕ × List ℕ) → M (State src) (Option (List Line))
  with_name next fp pc_ptr pc none s = (ok none, s)
  with_name next fp pc_ptr pc (some (name, left)) s =
      follow next (frame fp pc_ptr pc name) (load s fp) left s

  -- A load that faults raises an exception, whose handler panics.
  abbrev pub with_pc : (ℕ → Trace) → ℕ → ℕ → Option ℕ → Trace
  with_pc next fp pc_ptr none input s = (panic, s)
  with_pc next fp pc_ptr (some pc) input s =
      if pc == 0
      then (ok (some (empty_return fp ∷ [])), s)
      else with_name next fp pc_ptr pc (read_name name_capacity input) s

  abbrev pub visit : (ℕ → Trace) → ℕ → ℕ → List ℕ → Bool → M (State src) (Option (List Line))
  visit next fp pc_ptr input false s = (ok (some (guard_page fp ∷ [])), s)
  visit next fp pc_ptr input true s = with_pc next fp pc_ptr (load s pc_ptr) input s

  abbrev pub at_slot : (ℕ → Trace) → ℕ → Option ℕ → Trace
  at_slot next fp none input = pure (some [])
  at_slot next fp (some pc_ptr) input = readable fp pc_ptr >>= visit next fp pc_ptr input

  -- The loop, for `n` more depths.
  unfoldable pub unwind_from : ℕ → ℕ → Trace
  unwind_from zero fp input = pure (some [])
  unwind_from (suc n) fp input = at_slot (unwind_from n) fp (next_slot fp) input

  -- A word in the high half whose page is mapped by an entry that is present.
  pub record IsLoaded (s : State src) (addr : ℕ) : Type 0 where
    pub high : 2 ^ 63 ≤ addr
    pub entry : PageTableEntry
    pub mapped : translate src mapper addr s ≡ (ok entry, s)
    pub present : is_present (flags entry) ≡ true

  -- A frame record that the loop reads: aligned, below the end of memory, and mapped.
  pub record IsRecord (s : State src) (fp : ℕ) : Type 0 where
    pub aligned : fp % 8 ≡ 0
    pub fits : fp + 8 < 2 ^ 64
    pub first : IsLoaded s fp
    pub second : IsLoaded s (fp + 8)

  -- A name that fits, of ASCII characters other than the line feed.
  abbrev pub IsName : List ℕ → Type 0
  IsName name = (length name ≤ name_capacity) × All (λ b. (b < 128) × (b ≢ 10)) name

  -- A chain of frame records with these return addresses, of which the last one holds 0, and the names
  -- that the host knows them by.
  abbrev pub Chain : State src → ℕ → List (ℕ × List ℕ) → Type 0
  Chain s fp [] = IsRecord s fp × (s.memory (fp + 8) ≡ 0)
  Chain s fp ((pc, name) ∷ frames) =
      IsRecord s fp
      × (s.memory (fp + 8) ≡ pc)
      × (pc ≢ 0)
      × IsName name
      × Chain s (s.memory fp) frames

  abbrev pub lines_of : State src → ℕ → List (ℕ × List ℕ) → List Line
  lines_of s fp [] = empty_return fp ∷ []
  lines_of s fp ((pc, name) ∷ frames) = frame fp (fp + 8) pc name ∷ lines_of s (s.memory fp) frames

module _ (src : FrameSource) (low_load : State src → VirtAddr → Option ℕ) where
  -- From the frame pointer of the caller.
  unfoldable pub unwind_kernel_stack : ℕ → List ℕ → M (State src) (Option (List Line))
  unwind_kernel_stack fp input s =
      let mapper = current src TableKind.kernel s in
      if fp == 0 then (ok (some []), s) else unwind_from src mapper low_load 64 fp input s
