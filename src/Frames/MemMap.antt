-- ===== src/Frames/MemMap.antt =====
-- `MemMapEntries` of crates/kernel/src/mem/paging/mod.rs: an array of `n` entries with the count of those
-- in use.
use kados_ng.Base.{
  ℕ, ◌+◌, ◌≤◌, ◌≡◌, refl, ap, ◌∙◌, arith, List, [], ◌∷◌, ◌++◌, length, take, set, replicate, ltb,
  leb, if◌then◌else◌, lt→ltb, le→leb, ltb_of_le, length-append, append_assoc,
}
use kados_ng.Mem.Outcome.{Outcome, ok, panic}
use kados_ng.Frames.Bump.{MemMapEntry}

-- `MemMapEntry::EMPTY`
abbrev pub empty_entry : MemMapEntry
empty_entry = record { base = 0; size = 0 }

pub record MemMapEntries : Type 0 where
  pub entries : List MemMapEntry
  pub usable_entry_count : ℕ

unfoldable pub new_entries : ℕ → MemMapEntries
new_entries n = record { entries = replicate n empty_entry; usable_entry_count = 0 }

-- An index past the end panics.
unfoldable pub push_usable : MemMapEntry → MemMapEntries → Outcome MemMapEntries
push_usable entry m =
    if ltb m.usable_entry_count (length m.entries)
    then ok (record {
      entries = set m.entries m.usable_entry_count entry;
      usable_entry_count = m.usable_entry_count + 1;
    })
    else panic

unfoldable pub usable_entries : MemMapEntries → Outcome (List MemMapEntry)
usable_entries m =
    if leb m.usable_entry_count (length m.entries)
    then ok (take m.usable_entry_count m.entries)
    else panic

pub push_all : List MemMapEntry → MemMapEntries → Outcome MemMapEntries
push_all [] m = ok m
push_all (e ∷ es) m = elim (push_usable e m) [ ok m' ↦ push_all es m' | _ ↦ panic ]

-- The entries in use, and what follows them in the array.
abbrev holding : List MemMapEntry → List MemMapEntry → MemMapEntries
holding used free = record { entries = used ++ free; usable_entry_count = length used }

set_first_free :
    (used : List MemMapEntry) (f e : MemMapEntry) (free : List MemMapEntry)
    → set (used ++ f ∷ free) (length used) e ≡ (used ++ e ∷ []) ++ free
set_first_free [] f e free = refl
set_first_free (u ∷ used) f e free = ap (λ t. u ∷ t) (set_first_free used f e free)

push_usable-holding :
    (used : List MemMapEntry) (f e : MemMapEntry) (free : List MemMapEntry)
    → push_usable e (holding used (f ∷ free)) ≡ ok (holding (used ++ e ∷ []) free)
unfolding push_usable
push_usable-holding used f e free =
    rw
      (
        lt→ltb (length used) (length (used ++ f ∷ free))
            (omega (arith, length-append used (f ∷ free))),
        set_first_free used f e free,
      )
      (ap (λ n. ok (record { entries = (used ++ e ∷ []) ++ free; usable_entry_count = n }))
        one_more)
  where
    one_more : length used + 1 ≡ length (used ++ e ∷ [])
    one_more = omega (arith, length-append used (e ∷ []))

take_used : (used free : List MemMapEntry) → take (length used) (used ++ free) ≡ used ++ []
take_used [] free = refl
take_used (u ∷ used) free = ap (λ t. u ∷ t) (take_used used free)

usable_entries-holding :
    (used free : List MemMapEntry) → usable_entries (holding used free) ≡ ok (used ++ [])
unfolding usable_entries
usable_entries-holding used free =
    rw
      (
        le→leb (length used) (length (used ++ free)) (omega (arith, length-append used free)),
        take_used used free,
      )
      refl

-- A full array takes no entry: the index panics.
pub push_usable_full :
    (e : MemMapEntry) (m : MemMapEntries)
    → length m.entries ≤ m.usable_entry_count
    → push_usable e m ≡ panic
unfolding push_usable
push_usable_full e m h = rw (ltb_of_le m.usable_entry_count (length m.entries) h) refl

-- As many entries as the array has free are pushed one after the other and are all in use then, in
-- order.
pub usable_entries-push_all :
    (es used free : List MemMapEntry)
    → length es ≤ length free
    → (m : MemMapEntries) × (push_all es (holding used free) ≡ ok m)
      × (usable_entries m ≡ ok (used ++ es))
unfolding push_all
usable_entries-push_all [] used free h = (holding used free, refl, usable_entries-holding used free)
usable_entries-push_all (e ∷ es) used [] h = absurd (omega arith)
usable_entries-push_all (e ∷ es) used (f ∷ free) h =
    let (m, run, all) = usable_entries-push_all es (used ++ e ∷ []) free (omega arith) in
    (
      m,
      rw (push_usable-holding used f e free, push_all) run,
      all ∙ ap ok (append_assoc used (e ∷ []) es),
    )
