-- ===== src/Paging/Entry.antt =====
-- `PageTableEntry` of crates/kernel/src/mem/paging/table.rs, as the raw word.
mod Word
mod Laws
pub use Word.*
pub use Laws.*
unfoldable pub use Word.{entry_new, is_unused, flags, addr, is_table, insert_flags}
