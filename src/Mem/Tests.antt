-- ===== src/Mem/Tests.antt =====
-- Addresses, frame counts and alignment on concrete values.
use kados_ng.Base.{◌+◌, ◌≤◌, ◌<◌, ◌≡◌, ◌↔◌, refl, arith}
use kados_ng.Arch.{hhdm_physical_offset, page_size}
use kados_ng.Base.{ℕ, ◌≢◌, List, [], ◌∷◌, inl}
use kados_ng.Mem.VirtAddr
use kados_ng.Mem.Outcome.{ok, err, MemError}
use kados_ng.Mem.Bytes.{write_bytes, IsWritten, write_bytes-IsWritten}
use kados_ng.Mem.Memory.{Memory, fill, fill_words}
use kados_ng.Mem.Canonical.{canonicalize_virtaddr, IsCanonicalVirt, canonicalize_virtaddr-eq_iff}
use kados_ng.Mem.Hhdm.{as_hhdm_virt, as_hhdm_phys, as_hhdm_phys-as_hhdm_virt}
use kados_ng.Mem.FrameCount.{from_bytes, to_bytes, from_bytes-le_iff, from_bytes-to_bytes}
use kados_ng.Mem.Fill.{fill-as_hhdm_virt}

high_address : canonicalize_virtaddr 0x0000_ffff_8000_1000 ≡ 0xffff_ffff_8000_1000
unfolding canonicalize_virtaddr
high_address = refl

canonicalize_virtaddr-eq_iff_example :
    (canonicalize_virtaddr 0x8000_0000_1000 ≡ 0x8000_0000_1000) ↔ IsCanonicalVirt 0x8000_0000_1000
canonicalize_virtaddr-eq_iff_example = canonicalize_virtaddr-eq_iff 0x8000_0000_1000 (omega arith)

as_hhdm_phys-as_hhdm_virt_example :
    (as_hhdm_phys (as_hhdm_virt 0x80000) ≡ 0x80000)
    × (canonicalize_virtaddr (as_hhdm_virt 0x80000) ≡ as_hhdm_virt 0x80000)
    × (hhdm_physical_offset ≤ as_hhdm_virt 0x80000)
as_hhdm_phys-as_hhdm_virt_example = as_hhdm_phys-as_hhdm_virt 0x80000 (omega arith)

from_bytes-le_iff_example :
    (from_bytes 4097 ≤ 1 ↔ 4097 ≤ to_bytes 1)
    × (4097 ≤ to_bytes (from_bytes 4097))
    × (to_bytes (from_bytes 4097) < 4097 + page_size)
from_bytes-le_iff_example = from_bytes-le_iff 4097 1 (omega arith) (omega arith)

from_bytes-to_bytes_example : from_bytes (to_bytes 5) ≡ 5
from_bytes-to_bytes_example = from_bytes-to_bytes 5 (omega arith)

sevens : Memory
sevens _ = 7

fill-as_hhdm_virt_example :
    fill (as_hhdm_virt 0x2000) 0 4096 sevens
    ≡ (ok 4096, fill_words (0x2000 + hhdm_physical_offset) 0 4096 sevens)
fill-as_hhdm_virt_example = fill-as_hhdm_virt 0x2000 4096 0 sevens (omega arith)

-- Four bytes, of which the last two lie behind the low canonical addresses.
abbrev four_bytes : List ℕ
four_bytes = 1 ∷ 2 ∷ 3 ∷ 4 ∷ []

write_bytes-IsWritten_example :
    (VirtAddr.add_bytes 0x7fff_ffff_fffe 4 ≡ 0
      → write_bytes 0x7fff_ffff_fffe four_bytes sevens ≡ (err MemError.null_virt_addr, sevens))
    × (VirtAddr.add_bytes 0x7fff_ffff_fffe 4 ≢ 0
        → IsWritten 0x7fff_ffff_fffe four_bytes sevens
            (write_bytes 0x7fff_ffff_fffe four_bytes sevens))
write_bytes-IsWritten_example =
    write_bytes-IsWritten 0x7fff_ffff_fffe four_bytes sevens (omega arith) (omega arith)
      (inl (omega arith)) (omega arith)

end_test : VirtAddr.add_bytes 0x7fff_ffff_fffe 4 ≡ 0xffff_8000_0000_0002
unfolding canonicalize_virtaddr
end_test = refl
