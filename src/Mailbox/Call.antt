-- ===== src/Mailbox/Call.antt =====
-- `Mailbox::call` of crates/kernel/src/arch/aarch64/drivers/gpu/mod.rs. The status and the messages that
-- the registers will show are given in order; the caches and barriers have no value here.
use kados_ng.Mailbox.Message.{
  MailboxChannel, encode, decode, payload, channel, number, encode-eq, payload_sum, channel_eq,
}
use kados_ng.Base.{ℕ, ◌+◌, ◌^◌, ◌%◌, ◌<◌, ◌≡◌, ◌≢◌, refl, arith, bit_and, Bool, true, false, ◌&&◌}
use kados_ng.Base.{
  List, [], ◌∷◌, ◌++◌, Option, none, some, ◌==◌, if◌then◌else◌, ==_refl, ==_of_ne, All, inl, inr,
  ◌⊎◌, length,
}
use native.Mathlib.Nat.{mod-eq_of_lt}
use kados_ng.Base.{◌≤◌, ap, ◌∙◌}
use kados_ng.Mem.Outcome.{Outcome, ok, err, panic}
use kados_ng.Mem.VirtAddr
use kados_ng.Mem.VirtAddr.{VirtAddr}
use kados_ng.Mem.Canonical.{canonicalize_virtaddr, canonicalize_virtaddr-eq_iff}
use kados_ng.Mem.Align.{align_ok-eq-ok_iff}
use kados_ng.Arch.{hhdm_physical_offset}

abbrev pub mailbox_empty : ℕ
mailbox_empty = 2 ^ 30

abbrev pub mailbox_full : ℕ
mailbox_full = 2 ^ 31

-- What the registers will read, and what has been written to the message register.
pub record Registers : Type 0 where
  pub statuses : List ℕ
  pub messages : List ℕ
  pub sent : List ℕ

-- Where the registers of the mailbox at `base` lie, and whether `read_volatile` or `write_volatile` of
-- a 32-bit word there succeeds; where it fails, the `unwrap` panics.
abbrev read_reg : ℕ
read_reg = 0x00

abbrev status_reg : ℕ
status_reg = 0x18

abbrev write_reg : ℕ
write_reg = 0x20

abbrev is_ok : Outcome (Unit {0}) → Bool
is_ok (ok _) = true
is_ok (err e) = false
is_ok panic = false

unfoldable pub accessible : VirtAddr → ℕ → Bool
accessible base reg = is_ok (VirtAddr.align_ok (VirtAddr.add_bytes base reg) 4)

-- How a call ends: with the buffer of a response, with an error, or, where a conversion that is taken to
-- succeed fails, in undefined behaviour. `waiting` polls on when the given values are used up.
pub data Called : Type 0 where
  ok_response : ℕ → Called
  failed : Called
  undefined : Called
  waiting : Called
  panicked : Called

-- `self.status().contains(mask)`
abbrev contains : ℕ → ℕ → Bool
contains status mask = bit_and status mask == mask

-- `while self.status().contains(mask)`: the statuses that are left after the first without the mask.
unfoldable pub spin_while : ℕ → List ℕ → Option (List ℕ)
spin_while mask [] = none
spin_while mask (status ∷ statuses) = elim (contains status mask) [
  | true ↦ spin_while mask statuses
  | false ↦ some statuses
]

abbrev same_channels : Option MailboxChannel → Option MailboxChannel → Option Bool
same_channels (some c) (some d) = some (number c == number d)
same_channels none d = none
same_channels (some c) none = none

abbrev and_payload : Option Bool → Bool → Option Bool
and_payload none same_payload = none
and_payload (some same_channel) same_payload = some (same_channel && same_payload)

-- Whether a message answers the one that was sent; `none` if one has no channel.
unfoldable pub answers : ℕ → ℕ → Option Bool
answers message resp =
    and_payload (same_channels (channel resp) (channel message)) (payload resp == payload message)

-- The end of the call, by the code that the GPU has left in the buffer.
abbrev respond : (ℕ → ℕ) → ℕ → Called
respond request_code resp =
    if bit_and (request_code (decode resp)) 0x8000_0000 == 0x8000_0000
    then ok_response (decode resp)
    else failed

abbrev by_answer : Option Bool → Called → Called → Called
by_answer none this next = undefined
by_answer (some true) this next = this
by_answer (some false) this next = next

abbrev if_polled : Option (List ℕ) → (List ℕ → Called) → Called
if_polled none k = waiting
if_polled (some statuses) k = k statuses

-- The loop that waits for the response, one message in each round.
unfoldable pub await_response : VirtAddr → (ℕ → ℕ) → ℕ → List ℕ → List ℕ → Called
await_response base request_code message statuses [] =
    if accessible base status_reg then waiting else panicked
await_response base request_code message statuses (resp ∷ resps) =
    let next = λ (statuses' : List ℕ). await_response base request_code message statuses' resps in
    let read = λ (statuses' : List ℕ).
      by_answer (answers message resp) (respond request_code resp) (next statuses') in
    if accessible base status_reg
    then (if_polled (spin_while mailbox_empty statuses)
        λ statuses'. if accessible base read_reg then read statuses' else panicked)
    else panicked

abbrev send_message : VirtAddr → (ℕ → ℕ) → Registers → Option (List ℕ) → ℕ → Called × List ℕ
send_message base request_code r none message = (waiting, r.sent)
send_message base request_code r (some statuses) message =
    if accessible base write_reg
    then (await_response base request_code message statuses r.messages, r.sent ++ message ∷ [])
    else (panicked, r.sent)

abbrev call_with : VirtAddr → (ℕ → ℕ) → Registers → Option ℕ → Called × List ℕ
call_with base request_code r none = (failed, r.sent)
call_with base request_code r (some message) =
    if accessible base status_reg
    then send_message base request_code r (spin_while mailbox_full r.statuses) message
    else (panicked, r.sent)

-- The call for a finished buffer, with the code that each buffer will hold when the response comes.
unfoldable pub call : VirtAddr → (ℕ → ℕ) → ℕ → MailboxChannel → Registers → Called × List ℕ
call base request_code buf c r = call_with base request_code r (encode buf c)

-- The mailbox lies in the direct map, as `parse` places it, and on a word.
abbrev pub IsMailbox : VirtAddr → Type 0
IsMailbox base = (base % 4 ≡ 0) × (hhdm_physical_offset ≤ base) × (base + 0x24 ≤ 2 ^ 64)

accessible_lem :
    (base reg : ℕ) → IsMailbox base → reg % 4 ≡ 0 → reg ≤ 0x20 → accessible base reg ≡ true
unfolding accessible
accessible_lem base reg (a, lo, hi) m h =
    rw
      ((align_ok-eq-ok_iff (VirtAddr.add_bytes base reg) 2 (omega (arith, address)) (omega arith)).1
        (omega (arith, address), omega (arith, address), inr (omega (arith, address))))
      refl
  where
    address : VirtAddr.add_bytes base reg ≡ base + reg
    address =
        ap canonicalize_virtaddr (mod-eq_of_lt {n = base + reg} {m = 2 ^ 64} (omega arith))
        ∙ (canonicalize_virtaddr-eq_iff (base + reg) (omega arith)).1 (inr (omega arith))

-- Polls that show the mask, and then one that does not.
abbrev pub IsRound : ℕ → List ℕ × ℕ → Type 0
IsRound mask (busy, free) =
    All (λ status. bit_and status mask ≡ mask) busy × (bit_and free mask ≢ mask)

abbrev pub polls : List (List ℕ × ℕ) → List ℕ
polls [] = []
polls ((busy, free) ∷ rounds) = busy ++ free ∷ polls rounds

spin_while_round :
    (mask : ℕ) (busy : List ℕ) (free : ℕ) (statuses : List ℕ)
    → IsRound mask (busy, free)
    → spin_while mask (busy ++ free ∷ statuses) ≡ some statuses
unfolding spin_while
spin_while_round mask [] free statuses (h, g) =
    rw (==_of_ne (bit_and free mask) mask g, spin_while) refl
spin_while_round mask (b ∷ busy) free statuses ((h, hs), g) =
    rw (h, ==_refl mask, spin_while) (spin_while_round mask busy free statuses (hs, g))

-- A message on another channel, or for another buffer.
abbrev pub IsOther : ℕ → MailboxChannel → ℕ → Type 0
IsOther p c resp =
    (d : MailboxChannel) × (channel resp ≡ some d) × ((number d ≢ number c) ⊎ (payload resp ≢ p))

answers_other :
    (p : ℕ) (c : MailboxChannel) (message resp : ℕ)
    → payload message ≡ p
    → channel message ≡ some c
    → IsOther p c resp
    → answers message resp ≡ some false
unfolding answers
answers_other p c message resp hp hc (d, hd, inl other) =
    rw (hd, hc, ==_of_ne (number d) (number c) other) refl
answers_other p c message resp hp hc (d, hd, inr other) =
    rw (hd, hc, hp, ==_of_ne (payload resp) p other) (no_answer (number d == number c))
  where
    no_answer : (b : Bool) → and_payload (some b) false ≡ some false
    no_answer true = refl
    no_answer false = refl

answers_this :
    (p : ℕ) (c : MailboxChannel) (message resp : ℕ)
    → payload message ≡ p
    → channel message ≡ some c
    → payload resp ≡ p
    → channel resp ≡ some c
    → answers message resp ≡ some true
unfolding answers
answers_this p c message resp hp hc rp rc = rw (rc, hc, hp, rp, ==_refl (number c), ==_refl p) refl

module _ (base : VirtAddr) (mailbox : IsMailbox base) (request_code : ℕ → ℕ) (p : ℕ)
    (c : MailboxChannel) (message answer : ℕ) (later : List ℕ) (sent_payload : payload message ≡ p)
    (sent_channel : channel message ≡ some c) (same_payload : payload answer ≡ p)
    (same_channel : channel answer ≡ some c) where
  await_response_skips :
      (others : List ℕ) (rounds : List (List ℕ × ℕ))
      → All (IsOther p c) others
      → All (IsRound mailbox_empty) rounds
      → length others < length rounds
      → await_response base request_code message (polls rounds) (others ++ answer ∷ later)
        ≡ respond request_code answer
  unfolding await_response
  await_response_skips others [] ho hr lt = absurd (omega arith)
  await_response_skips [] ((busy, free) ∷ rounds) ho (h, hr) lt =
      rw
        (
          accessible_lem base status_reg mailbox refl (omega arith),
          spin_while_round mailbox_empty busy free (polls rounds) h,
          accessible_lem base read_reg mailbox refl (omega arith),
          answers_this p c message answer sent_payload sent_channel same_payload same_channel,
        )
        refl
  await_response_skips (o ∷ others) ((busy, free) ∷ rounds) (h, ho) (k, hr) lt =
      rw
        (
          accessible_lem base status_reg mailbox refl (omega arith),
          spin_while_round mailbox_empty busy free (polls rounds) k,
          accessible_lem base read_reg mailbox refl (omega arith),
          answers_other p c message o sent_payload sent_channel h,
        )
        (await_response_skips others rounds ho hr (omega arith))

decode_at : (answer p : ℕ) → payload answer ≡ p → decode answer ≡ hhdm_physical_offset + p
unfolding decode
decode_at answer p e = omega arith

-- `Mailbox::call` for an aligned buffer below 4 GiB of physical memory, by a mailbox that lies in
-- the direct map and is aligned to 4 bytes, does not panic: it waits until the mailbox is not full,
-- sends the buffer's address with the channel, passes over the messages on other channels or for
-- other buffers, waiting before each message until the mailbox is not empty, and returns with the
-- buffer at the first message that answers: as a response if bit 31 of its code is set, as an error
-- if not.
pub call_answered :
    (base : VirtAddr) (request_code : ℕ → ℕ) (p : ℕ) (c : MailboxChannel) (first : List ℕ × ℕ)
    (rounds : List (List ℕ × ℕ)) (others : List ℕ) (answer : ℕ) (later sent : List ℕ)
    → IsMailbox base
    → p < 2 ^ 32
    → p % 16 ≡ 0
    → IsRound mailbox_full first
    → All (IsRound mailbox_empty) rounds
    → All (IsOther p c) others
    → length others < length rounds
    → payload answer ≡ p
    → channel answer ≡ some c
    → call base request_code (hhdm_physical_offset + p) c (record {
      statuses = polls (first ∷ rounds);
      messages = others ++ answer ∷ later;
      sent = sent;
    })
      ≡ (
        if bit_and (request_code (hhdm_physical_offset + p)) 0x8000_0000 == 0x8000_0000
            then ok_response (hhdm_physical_offset + p)
            else failed,
        sent ++ (p + number c) ∷ [],
      )
unfolding call
call_answered base request_code p c (busy, free) rounds others answer later sent mailbox h a full
      empties ho lt ap_eq ac =
    let reached : decode answer ≡ hhdm_physical_offset + p = decode_at answer p ap_eq in
    rw
      (
        encode-eq p c h a,
        accessible_lem base status_reg mailbox refl (omega arith),
        spin_while_round mailbox_full busy free (polls rounds) full,
        accessible_lem base write_reg mailbox refl (omega arith),
        await_response_skips base mailbox request_code p c (p + number c) answer later
            (payload_sum p c h a) (channel_eq p c a) ap_eq ac others rounds ho empties lt,
        reached,
      )
      refl
