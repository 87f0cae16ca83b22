-- ===== src/Mailbox/Buffer.antt =====
-- `MailboxBuffer`, `MailboxRequest`, `MailboxResponse` and the `prop!` macro (props.rs) of
-- crates/kernel/src/arch/aarch64/drivers/gpu. A buffer is the list of its 32-bit words; an index
-- outside of it panics. The words of a buffer from `dma_alloc` are whatever they were before.
use kados_ng.Base.{ℕ, zero, suc, ◌+◌, ◌-◌, ◌*◌, ◌/◌, ◌^◌, max, List, [], ◌∷◌}
use kados_ng.Base.{
  Option, none, some, ltb, leb, ◌==◌, if◌then◌else◌, length, get_elem?, get_or, set, take, drop,
  replicate,
}

-- A result, or a panic.
pub data Checked {ℓ} (A : Type ℓ) : Type ℓ where
  done : A → Checked A
  panic : Checked A

infixl 5 ◌>>=◌
abbrev pub ◌>>=◌ {ℓ κ} : {A : Type ℓ} {B : Type κ} → Checked A → (A → Checked B) → Checked B
done a >>= f = f a
panic >>= f = panic

-- A property has a tag, and its request and its response are structures of so many `u32` fields.
pub record MailboxProperty : Type 0 where
  pub tag : ℕ
  pub request_fields : ℕ
  pub response_fields : ℕ

abbrev pub size_idx : ℕ
size_idx = 0

abbrev pub code_idx : ℕ
code_idx = 1

unfoldable pub index_or_panic : List ℕ → ℕ → Checked ℕ
index_or_panic buf i = elim (get_elem? buf i) [ none ↦ panic | some v ↦ done v ]

unfoldable pub buffer_size : List ℕ → ℕ
buffer_size buf = get_or buf size_idx 0 / 2 ^ 2

unfoldable pub request_code : List ℕ → ℕ
request_code buf = get_or buf code_idx 0

pub record MailboxRequest : Type 0 where
  pub buf : List ℕ
  pub index : ℕ

-- `dma` is the buffer that `dma_alloc` returns.
unfoldable pub new : List ℕ → MailboxRequest
new dma = record { buf = dma; index = 2 }

unfoldable pub int : ℕ → MailboxRequest → Checked MailboxRequest
int prop r =
    if ltb r.index (length r.buf)
    then done (record { buf = set r.buf r.index prop; index = r.index + 1 })
    else panic

unfoldable pub skip : ℕ → MailboxRequest → MailboxRequest
skip n r = record r { index = r.index + n }

-- The `request = request.int(self.field)` of the macro, for each field.
unfoldable pub encode_request : List ℕ → MailboxRequest → Checked MailboxRequest
encode_request [] r = done r
encode_request (field ∷ fields) r = int field r >>= encode_request fields

-- `while this.index < start + (max_size >> 2)`, with `rounds` of it left.
unfoldable pub add_placeholders : ℕ → MailboxRequest → Checked MailboxRequest
add_placeholders zero r = done r
add_placeholders (suc rounds) r = int 0 r >>= add_placeholders rounds

-- The size of a structure of `n` fields is `4 * n`.
abbrev pub max_size : MailboxProperty → ℕ
max_size t = max (4 * t.request_fields) (4 * t.response_fields)

unfoldable pub encode : MailboxProperty → List ℕ → MailboxRequest → Checked MailboxRequest
encode t prop this = do
  r1 ← int t.tag this
  r2 ← int (max_size t) r1
  r3 ← int 0 r2
  let start = r3.index
  r4 ← encode_request prop r3
  add_placeholders (start + max_size t / 2 ^ 2 - r4.index) r4

unfoldable pub finish : MailboxRequest → Checked (List ℕ)
finish r = do
  let sized = set r.buf size_idx ((r.index + 1) * 2 ^ 2)
  let coded = set sized code_idx 0
  this ← int 0 (record { buf = coded; index = r.index })
  done this.buf

-- The fields in order, each by an index into the slice.
unfoldable pub decode_fields : ℕ → ℕ → List ℕ → Checked (List ℕ)
decode_fields zero i response = done []
decode_fields (suc left) i response = do
  field ← index_or_panic response i
  fields ← decode_fields left (i + 1) response
  done (field ∷ fields)

unfoldable pub decode_response : MailboxProperty → List ℕ → Checked (Option (List ℕ))
decode_response t response = do
  fields ← decode_fields t.response_fields 0 response
  done (some fields)

-- `&buf[from..to]`
unfoldable pub slice : List ℕ → ℕ → ℕ → Checked (List ℕ)
slice buf from to =
    if leb from to
    then (if leb to (length buf) then done (take (to - from) (drop from buf)) else panic)
    else panic

-- The loop from `i` on; each round goes on by 3 words at least, so `size` rounds are enough, and the
-- `panic` for want of fuel is never reached.
unfoldable pub decode_from : ℕ → MailboxProperty → List ℕ → ℕ → ℕ → Checked (Option (List ℕ))
decode_from zero t buf size i = if ltb i size then panic else done none
decode_from (suc fuel) t buf size i =
    if ltb i size
    then (do
      bytes ← index_or_panic buf (i + 1)
      let prop_size = bytes / 2 ^ 2
      tag ← index_or_panic buf i
      if tag == t.tag
          then (slice buf (i + 3) (i + 3 + prop_size) >>= decode_response t)
          else decode_from fuel t buf size (i + (prop_size + 3)))
    else done none

unfoldable pub decode : MailboxProperty → List ℕ → Checked (Option (List ℕ))
decode t buf = decode_from (buffer_size buf) t buf (buffer_size buf) 2

unfoldable pub recycle : List ℕ → MailboxRequest
recycle buf = record { buf = replicate (length buf) 0; index = 2 }
