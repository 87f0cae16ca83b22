-- ===== src/Gic/Parse.antt =====
-- `Gic::parse` of arch/aarch64/gic.rs. The device tree package gives the node, `none` if there is none,
-- and its regions, `none` inside if it has no `reg`. The only error is EINVAL, which is `none`.
use kados_ng.Base.{
  ℕ, ◌≡◌, ◌⊎◌, inl, inr, refl, Bool, true, false, Option, none, some, List, [], ◌∷◌, ◌==◌,
  if◌then◌else◌,
}
use kados_ng.Mem.PhysAddr.{PhysAddr}
use kados_ng.Fdt.{MemoryRange, MemoryRegion, get_mmio_addr}

pub record GicAddrs : Type 0 where
  pub dist_phys : PhysAddr
  pub cpu_phys : PhysAddr

-- Whether the loop goes on past the test of the size.
abbrev pub has_size : Option ℕ → Bool
has_size none = false
has_size (some n) = if n == 0 then false else true

abbrev pub finish : ℕ → GicAddrs → Option GicAddrs
finish idx addrs = if idx == 4 then some addrs else none

module _ (soc : Option (Option (List MemoryRange))) where
  -- The end of the loop's body, where `next` goes on with the other regions.
  abbrev pub put_addr :
      (ℕ → GicAddrs → Option GicAddrs) → ℕ → GicAddrs → Option PhysAddr → Option GicAddrs
  put_addr next idx addrs none = none
  put_addr next idx addrs (some addr) =
      if idx == 0
      then next 2 (record addrs { dist_phys = addr })
      else if idx == 2
      then next 4 (record addrs { cpu_phys = addr })
      else finish idx addrs

  unfoldable pub parse_regions : List MemoryRegion → ℕ → GicAddrs → Option GicAddrs
  parse_regions [] idx addrs = finish idx addrs
  parse_regions (region ∷ rest) idx addrs =
      let next = put_addr (parse_regions rest) idx addrs (get_mmio_addr soc region) in
      if has_size region.size then next else finish idx addrs

  abbrev pub parse : Option (Option (List MemoryRegion)) → Option GicAddrs
  parse none = none
  parse (some none) = none
  parse (some (some regions)) = parse_regions regions 0 (record { dist_phys = 0; cpu_phys = 0 })

  -- A third region is not used, but an error if it has a size and no address.
  abbrev pub IsHarmless : List MemoryRegion → Type 0
  IsHarmless [] = Unit {0}
  IsHarmless (region ∷ rest) =
      (has_size region.size ≡ false) ⊎ ((a : PhysAddr) × (get_mmio_addr soc region ≡ some a))

  harmless_rest :
      (rest : List MemoryRegion) (addrs : GicAddrs)
      → IsHarmless rest
      → parse_regions rest 4 addrs ≡ some addrs
  unfolding parse_regions
  harmless_rest [] addrs h = refl
  harmless_rest (region ∷ rest) addrs (inl e) = rw e refl
  harmless_rest (region ∷ rest) addrs (inr (a, e)) = rw (e) (whichever (has_size region.size))
    where
      whichever : (b : Bool) → (if b then some addrs else some addrs) ≡ some addrs
      whichever true = refl
      whichever false = refl

  -- The first two regions of a node, if they have sizes and addresses, are those of the distributor and
  -- of the CPU interface.
  pub parse_lem :
      (dist cpu : MemoryRegion) (rest : List MemoryRegion) (d c : PhysAddr)
      → has_size dist.size ≡ true
      → has_size cpu.size ≡ true
      → get_mmio_addr soc dist ≡ some d
      → get_mmio_addr soc cpu ≡ some c
      → IsHarmless rest
      → parse (some (some (dist ∷ cpu ∷ rest))) ≡ some (record { dist_phys = d; cpu_phys = c })
  unfolding parse_regions
  parse_lem dist cpu rest d c sd sc ed ec h =
      rw (ed, ec, sd, sc) (harmless_rest rest (record { dist_phys = d; cpu_phys = c }) h)
