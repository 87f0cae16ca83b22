-- ===== src/Mailbox/Message.antt =====
-- `MailboxChannel` and `MailboxMessage` of crates/kernel/src/arch/aarch64/drivers/gpu/mod.rs, as in a
-- release build: an address that underflows wraps, and its alignment is not checked.
use kados_ng.Base.{ℕ, ◌+◌, ◌-◌, ◌*◌, ◌/◌, ◌%◌, ◌^◌, ◌<◌, ◌≡◌, refl, ap, ◌∙◌, arith, bit_and, bit_or}
use kados_ng.Base.{Option, none, some, ltb, ◌==◌, if◌then◌else◌}
use kados_ng.Arch.{hhdm_physical_offset, wrapping_sub}
use kados_ng.Bits.{
  bit_and_split, bit_or_split, bit_and_mask, bit_or-zero, bit_and-zero, zero-bit_or,
}

pub data MailboxChannel : Type 0 where
  power_management frame_buffer virtual_uart vchiq leds buttons : MailboxChannel
  touchscreen unused tags_arm_to_vc tags_vc_to_arm : MailboxChannel

-- `channel as u32`
abbrev pub number : MailboxChannel → ℕ
number power_management = 0
number frame_buffer = 1
number virtual_uart = 2
number vchiq = 3
number leds = 4
number buttons = 5
number touchscreen = 6
number unused = 7
number tags_arm_to_vc = 8
number tags_vc_to_arm = 9

-- `MailboxChannel::try_from`
unfoldable pub try_from : ℕ → Option MailboxChannel
try_from n =
    if n == 0
    then some power_management
    else if n == 1
    then some frame_buffer
    else if n == 2
    then some virtual_uart
    else if n == 3
    then some vchiq
    else if n == 4
    then some leds
    else if n == 5
    then some buttons
    else if n == 6
    then some touchscreen
    else if n == 7
    then some unused
    else if n == 8
    then some tags_arm_to_vc
    else if n == 9
    then some tags_vc_to_arm
    else none

-- `none` is the error that the address is no physical address of 32 bits.
unfoldable pub encode : ℕ → MailboxChannel → Option ℕ
encode buffer channel =
    let addr = wrapping_sub buffer hhdm_physical_offset in
    if ltb addr (2 ^ 32) then some (bit_or addr (number channel)) else none

unfoldable pub payload : ℕ → ℕ
payload raw = bit_and raw (2 ^ 32 - 1 - 0b1111)

unfoldable pub decode : ℕ → ℕ
unfolding payload
decode raw = payload raw + hhdm_physical_offset

-- `none` where the conversion fails, which a release build takes to be impossible.
unfoldable pub channel : ℕ → Option MailboxChannel
unfolding try_from
channel raw = try_from (bit_and raw 0b1111)

number-lt : (c : MailboxChannel) → number c < 16
number-lt power_management = omega arith
number-lt frame_buffer = omega arith
number-lt virtual_uart = omega arith
number-lt vchiq = omega arith
number-lt leds = omega arith
number-lt buttons = omega arith
number-lt touchscreen = omega arith
number-lt unused = omega arith
number-lt tags_arm_to_vc = omega arith
number-lt tags_vc_to_arm = omega arith

raw_eq : (p : ℕ) (c : MailboxChannel) → p % 16 ≡ 0 → bit_or p (number c) ≡ p + number c
raw_eq p c h = ground (
  arith,
  number-lt c,
  bit_or_split 4 (p / 16) 0 0 (number c),
  bit_or-zero (p / 16),
  zero-bit_or (number c),
)

payload-eq : (raw : ℕ) → raw < 2 ^ 32 → payload raw ≡ raw / 16 * 16
unfolding payload
payload-eq raw h = ground (
  arith,
  bit_and_split 4 (raw / 16) (2 ^ 28 - 1) (raw % 16) 0,
  bit_and_mask 28 (raw / 16),
  bit_and-zero (raw % 16),
)

try_from-number : (c : MailboxChannel) → try_from (number c) ≡ some c
unfolding try_from
try_from-number power_management = refl
try_from-number frame_buffer = refl
try_from-number virtual_uart = refl
try_from-number vchiq = refl
try_from-number leds = refl
try_from-number buttons = refl
try_from-number touchscreen = refl
try_from-number unused = refl
try_from-number tags_arm_to_vc = refl
try_from-number tags_vc_to_arm = refl

pub channel_eq : (p : ℕ) (c : MailboxChannel) → p % 16 ≡ 0 → channel (p + number c) ≡ some c
unfolding channel
channel_eq p c h =
    let low : bit_and (p + number c) 0b1111 ≡ number c =
      bit_and_mask 4 (p + number c) ∙ omega (arith, number-lt c) in
    ap try_from low ∙ try_from-number c

pub encode-eq :
    (p : ℕ) (c : MailboxChannel)
    → p < 2 ^ 32
    → p % 16 ≡ 0
    → encode (hhdm_physical_offset + p) c ≡ some (p + number c)
unfolding encode
encode-eq p c h a = ground (arith, raw_eq p c a)

pub payload_sum :
    (p : ℕ) (c : MailboxChannel) → p < 2 ^ 32 → p % 16 ≡ 0 → payload (p + number c) ≡ p
payload_sum p c h a = omega (arith, payload-eq (p + number c), number-lt c)

-- A message of an aligned buffer below 4 GiB gives the buffer and the channel back.
pub decode-encode :
    (p : ℕ) (c : MailboxChannel)
    → p < 2 ^ 32
    → p % 16 ≡ 0
    → (raw : ℕ) × (encode (hhdm_physical_offset + p) c ≡ some raw)
      × (decode raw ≡ hhdm_physical_offset + p)
      × (payload raw ≡ p)
      × (channel raw ≡ some c)
unfolding decode
decode-encode p c h a = (
  p + number c,
  encode-eq p c h a,
  omega (arith, payload_sum p c h a),
  payload_sum p c h a,
  channel_eq p c a,
)
