-- ===== src/Mem/Bytes.antt =====
-- `read_bytes` and `write_bytes` of `VirtAddr` (crates/kernel/src/mem/units.rs), on a memory of bytes.
use kados_ng.Base.{
  ℕ, zero, suc, ◌+◌, ◌^◌, ◌≤◌, ◌<◌, ◌≡◌, ◌≢◌, ◌⊎◌, inl, inr, refl, arith, ap₂, ◌∙◌, List, [], ◌∷◌,
  length, ◌==◌, if◌then◌else◌, ==_of_ne,
}
use kados_ng.Mem.Outcome.{Outcome, ok, err, panic, MemError}
use kados_ng.Mem.VirtAddr
use kados_ng.Mem.VirtAddr.{VirtAddr}
use kados_ng.Mem.Canonical.{
  IsCanonicalVirt, canonicalize_virtaddr-lt, canonicalize_virtaddr-IsCanonicalVirt,
}
use kados_ng.Mem.Align.{align_ok-eq-ok_iff}

abbrev pub Bytes : Type 0
Bytes = ℕ → ℕ

-- The bytes of a range, and their copy.
abbrev pub bytes_at : VirtAddr → ℕ → Bytes → List ℕ
bytes_at addr zero m = []
bytes_at addr (suc n) m = m addr ∷ bytes_at (addr + 1) n m

abbrev pub copy_to : VirtAddr → List ℕ → Bytes → Bytes
copy_to addr [] m q = m q
copy_to addr (b ∷ bs) m q = if q == addr then b else copy_to (addr + 1) bs m q

-- The buffer is returned.
unfoldable pub read_bytes : VirtAddr → ℕ → Bytes → Outcome (List ℕ)
read_bytes addr len m = elim (VirtAddr.align_ok addr 1) [
  | ok _ ↦ if len == 0 then ok [] else elim (VirtAddr.align_ok (VirtAddr.add_bytes addr len) 1) [
    | ok _ ↦ ok (bytes_at addr len m)
    | err e ↦ err e
    | panic ↦ panic
  ]
  | err e ↦ err e
  | panic ↦ panic
]

unfoldable pub write_bytes : VirtAddr → List ℕ → Bytes → Outcome ℕ × Bytes
write_bytes addr buf m = elim (VirtAddr.align_ok addr 1) [
  | ok _ ↦ elim (VirtAddr.align_ok (VirtAddr.add_bytes addr (length buf)) 1) [
    | ok _ ↦ (ok (length buf), copy_to addr buf m)
    | err e ↦ (err e, m)
    | panic ↦ (panic, m)
  ]
  | err e ↦ (err e, m)
  | panic ↦ (panic, m)
]

align_ok_byte :
    (addr : ℕ) → addr < 2 ^ 64 → addr ≢ 0 → IsCanonicalVirt addr → VirtAddr.align_ok addr 1 ≡ ok tt
align_ok_byte addr h ne c = (align_ok-eq-ok_iff addr 0 h (omega arith)).1 (ne, omega arith, c)

-- The end of a range, which is made canonical before it is checked.
align_ok_end :
    (addr len : ℕ)
    → VirtAddr.add_bytes addr len ≢ 0
    → VirtAddr.align_ok (VirtAddr.add_bytes addr len) 1 ≡ ok tt
align_ok_end addr len ne =
    align_ok_byte (VirtAddr.add_bytes addr len) (canonicalize_virtaddr-lt _) ne
      (canonicalize_virtaddr-IsCanonicalVirt _)

align_ok_null : (addr : ℕ) → addr ≡ 0 → VirtAddr.align_ok addr 1 ≡ err MemError.null_virt_addr
unfolding VirtAddr.align_ok
align_ok_null addr e = rw (e) refl

copy_before : (addr : ℕ) (bs : List ℕ) (m : Bytes) (q : ℕ) → q < addr → copy_to addr bs m q ≡ m q
copy_before addr [] m q h = refl
copy_before addr (b ∷ bs) m q h =
    rw (==_of_ne q addr (omega arith)) (copy_before (addr + 1) bs m q (omega arith))

copy_behind :
    (addr : ℕ) (bs : List ℕ) (m : Bytes) (q : ℕ) → addr + length bs ≤ q → copy_to addr bs m q ≡ m q
copy_behind addr [] m q h = refl
copy_behind addr (b ∷ bs) m q h =
    rw (==_of_ne q addr (omega arith)) (copy_behind (addr + 1) bs m q (omega arith))

agree_bytes :
    (addr n : ℕ) (m m' : Bytes)
    → ((q : ℕ) → addr ≤ q → m q ≡ m' q)
    → bytes_at addr n m ≡ bytes_at addr n m'
agree_bytes addr zero m m' h = refl
agree_bytes addr (suc n) m m' h =
    ap₂ (λ x xs. x ∷ xs) (h addr (omega arith))
      (agree_bytes (addr + 1) n m m' (λ q hq. h q (omega arith)))

bytes_at-copy_to :
    (addr : ℕ) (bs : List ℕ) (m : Bytes) → bytes_at addr (length bs) (copy_to addr bs m) ≡ bs
bytes_at-copy_to addr [] m = refl
bytes_at-copy_to addr (b ∷ bs) m =
    ap₂ (λ x xs. x ∷ xs) (ground arith)
      (agree_bytes (addr + 1) (length bs) (copy_to addr (b ∷ bs) m) (copy_to (addr + 1) bs m)
          (λ q h. rw (==_of_ne q addr (omega arith)) refl)
        ∙ bytes_at-copy_to (addr + 1) bs m)

write_bytes_null :
    (addr : ℕ) (buf : List ℕ) (m : Bytes)
    → addr < 2 ^ 64
    → addr ≢ 0
    → IsCanonicalVirt addr
    → VirtAddr.add_bytes addr (length buf) ≡ 0
    → write_bytes addr buf m ≡ (err MemError.null_virt_addr, m)
unfolding write_bytes
write_bytes_null addr buf m h ne c e =
    rw
      (
        write_bytes,
        align_ok_byte addr h ne c,
        align_ok_null (VirtAddr.add_bytes addr (length buf)) e,
      )
      refl

write_bytes-copy_to :
    (addr : ℕ) (buf : List ℕ) (m : Bytes)
    → addr < 2 ^ 64
    → addr ≢ 0
    → IsCanonicalVirt addr
    → VirtAddr.add_bytes addr (length buf) ≢ 0
    → write_bytes addr buf m ≡ (ok (length buf), copy_to addr buf m)
unfolding write_bytes
write_bytes-copy_to addr buf m h ne c e =
    rw (write_bytes, align_ok_byte addr h ne c, align_ok_end addr (length buf) e) refl

read_bytes-copy_to :
    (addr : ℕ) (buf : List ℕ) (m : Bytes)
    → addr < 2 ^ 64
    → addr ≢ 0
    → IsCanonicalVirt addr
    → VirtAddr.add_bytes addr (length buf) ≢ 0
    → read_bytes addr (length buf) (copy_to addr buf m) ≡ ok buf
unfolding read_bytes
read_bytes-copy_to addr buf m h ne c e =
    rw
      (
        read_bytes,
        align_ok_byte addr h ne c,
        align_ok_end addr (length buf) e,
        bytes_at-copy_to addr buf m,
      )
      (empty buf)
  where
    empty : (bs : List ℕ) → (if length bs == 0 then ok [] else ok bs) ≡ ok bs
    empty [] = refl
    empty (b ∷ bs) = ground arith

-- What `write_bytes` leaves: the bytes at the address, which `read_bytes` gives back, and nothing else.
abbrev pub IsWritten : VirtAddr → List ℕ → Bytes → Outcome ℕ × Bytes → Type 0
IsWritten addr buf m r =
    (r.0 ≡ ok (length buf))
    × (read_bytes addr (length buf) r.1 ≡ ok buf)
    × ((q : ℕ) → (q < addr) ⊎ (addr + length buf ≤ q) → r.1 q ≡ m q)

-- At a canonical address that is not null, in a range up to 2 ^ 64, `write_bytes` refuses a buffer
-- only if the end of the range, made canonical, is null, and then writes nothing. Otherwise it
-- writes the whole buffer, which `read_bytes` then reads back, and no other byte: also where the
-- range leaves the canonical addresses, since the end is made canonical before it is checked.
pub write_bytes-IsWritten :
    (addr : VirtAddr) (buf : List ℕ) (m : Bytes)
    → addr < 2 ^ 64
    → addr ≢ 0
    → IsCanonicalVirt addr
    → addr + length buf ≤ 2 ^ 64
    → (VirtAddr.add_bytes addr (length buf) ≡ 0
        → write_bytes addr buf m ≡ (err MemError.null_virt_addr, m))
      × (VirtAddr.add_bytes addr (length buf) ≢ 0 → IsWritten addr buf m (write_bytes addr buf m))
write_bytes-IsWritten addr buf m h ne c fits = (write_bytes_null addr buf m h ne c, written)
  where
    outside : (q : ℕ) → (q < addr) ⊎ (addr + length buf ≤ q) → copy_to addr buf m q ≡ m q
    outside q (inl l) = copy_before addr buf m q l
    outside q (inr l) = copy_behind addr buf m q l

    written :
        VirtAddr.add_bytes addr (length buf) ≢ 0 → IsWritten addr buf m (write_bytes addr buf m)
    written e =
        rw (write_bytes-copy_to addr buf m h ne c e)
          (refl, read_bytes-copy_to addr buf m h ne c e, outside)
