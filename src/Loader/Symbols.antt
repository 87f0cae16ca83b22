-- ===== src/Loader/Symbols.antt =====
-- tools/loader/src/client.rs: the answers to symbol requests. The symbol file is read by a package: its
-- symbol table is an argument, `none` where there is no section `.symtab`, with `none` inside where its
-- data is no table of 64-bit symbols. So is the reading of a number from the text of a request.
use kados_ng.Base.{
  ℕ, ◌+◌, ◌%◌, ◌^◌, List, [], ◌∷◌, ◌++◌, Option, none, some, Bool, ◌&&◌, leb, ltb, ◌==◌,
  if◌then◌else◌,
}

-- An entry of the symbol table; `none` where its name cannot be read.
pub record Symbol : Type 0 where
  pub value : ℕ
  pub size : ℕ
  pub name : Option (List ℕ)

abbrev pub SymbolTable : Type 0
SymbolTable = Option (Option (List Symbol))

-- `strip_prefix`
unfoldable pub strip_prefix : List ℕ → List ℕ → Option (List ℕ)
strip_prefix [] bytes = some bytes
strip_prefix (p ∷ ps) [] = none
strip_prefix (p ∷ ps) (b ∷ bs) = if p == b then strip_prefix ps bs else none

-- `(entry.value()..entry.value() + entry.size()).contains(&addr)`
abbrev pub covers : Symbol → ℕ → Bool
covers entry addr = leb entry.value addr && ltb addr ((entry.value + entry.size) % 2 ^ 64)

-- The name of the first symbol that covers the address.
unfoldable pub find_entry : List Symbol → ℕ → Option (List ℕ)
find_entry [] addr = none
find_entry (entry ∷ syms) addr = if covers entry addr then entry.name else find_entry syms addr

unfoldable pub find_symbol : SymbolTable → ℕ → Option (List ℕ)
find_symbol none addr = none
find_symbol (some none) addr = none
find_symbol (some (some syms)) addr = find_entry syms addr

abbrev unknown : List ℕ
unknown = b'u' ∷ b'n' ∷ b'k' ∷ b'n' ∷ b'o' ∷ b'w' ∷ b'n' ∷ b'\n' ∷ []

abbrev sym_prefix : List ℕ
sym_prefix = b'[' ∷ b's' ∷ b'y' ∷ b'm' ∷ b'?' ∷ b']' ∷ []

abbrev name_line : Option (List ℕ) → List ℕ
name_line (some name) = name ++ b'\n' ∷ []
name_line none = unknown

abbrev answer_for : SymbolTable → Option ℕ → List ℕ
answer_for symbols (some addr) = name_line (find_symbol symbols addr)
answer_for symbols none = unknown

abbrev answer_to : (List ℕ → Option ℕ) → Option SymbolTable → Option (List ℕ) → Option (List ℕ)
answer_to parse symbols none = none
answer_to parse none (some addr) = some unknown
answer_to parse (some symbols) (some addr) = some (answer_for symbols (parse addr))

-- The bytes that are written in answer; `none` where the data is no request (`Ok(false)`).
unfoldable pub maybe_handle_symbol_request :
    (List ℕ → Option ℕ) → Option SymbolTable → List ℕ → Option (List ℕ)
maybe_handle_symbol_request parse symbols bytes =
    answer_to parse symbols (strip_prefix sym_prefix bytes)
