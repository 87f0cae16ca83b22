-- ===== src/Paging/Tests.antt =====
-- Entries, indices and block sizes on concrete values.
use kados_ng.Base.{◌/◌, ◌%◌, ◌^◌, ◌≤◌, ◌<◌, ◌≡◌, ◌↔◌, refl, arith, inl, true}
use kados_ng.Arch.{page_size}
use kados_ng.Mem.Outcome.{ok}
use kados_ng.Mem.VirtAddr
use kados_ng.Base.{List, some, ◌+◌}
use kados_ng.Mem.VirtAddr.{VirtAddr}
use kados_ng.Paging.Flush.{PageFlushRange, flush, contains, flush-Flushed}
use kados_ng.Paging.Entry.{entry_new, addr, flags, is_table, frame_of, addr-entry_new, is_table_iff}

addr-entry_new_example :
    (addr (entry_new 0x9000 0x403) ≡ ok 0x9000)
    × (flags (entry_new 0x9000 0x403) ≡ 0x403)
    × (entry_new 0x9000 0x403 < 2 ^ 64)
addr-entry_new_example = addr-entry_new 0x9000 0x403 (refl, omega arith) (omega arith, refl)

is_table_iff_example : (is_table 0x3003 ≡ true) ↔ (
    (0x3003 % 4 ≡ 3)
    × (0x3003 / 2 ^ 7 % 2 ≡ 0)
    × (page_size ≤ frame_of 0x3003)
    × (frame_of 0x3003 < VirtAddr.max_low))
is_table_iff_example = is_table_iff 0x3003 (omega arith)

-- Three pages meet a range that begins and ends inside a page.
abbrev flush_range : PageFlushRange
flush_range = record { start = 0x1800; end = 0x3001 }

flush-Flushed_example :
    (ps : List VirtAddr) × (flush 8 flush_range ≡ ok (some ps))
    × ((q : VirtAddr)
        → q % 4096 ≡ 0
        → (contains q ps ≡ true) ↔ ((q < 0x3001) × (0x1800 < q + 4096)))
flush-Flushed_example = flush-Flushed 8 flush_range (omega arith, inl (omega arith)) (omega arith)
