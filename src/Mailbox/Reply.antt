-- ===== src/Mailbox/Reply.antt =====
-- What is decoded from the reply to a request.
use kados_ng.Mailbox.Buffer.{MailboxProperty, done, ◌>>=◌, new, finish}
use kados_ng.Mailbox.Buffer.{decode, decode_from, buffer_size, max_size}
use kados_ng.Mailbox.Request.{
  Entry, IsEntry, room, reply_block, requests, replies, encode_all, encode_all-at, finish-at, at,
  request_block, length-request_block,
}
use kados_ng.Base.{
  ℕ, zero, suc, ◌+◌, ◌*◌, ◌/◌, ◌^◌, ◌<◌, ◌≤◌, List, [], ◌∷◌, ◌++◌, ◌≡◌, ◌≢◌, refl, ap, ◌∙◌, sym,
  arith,
}
use kados_ng.Base.{Option, none, some, ◌==◌, if◌then◌else◌, length, take, All}
use kados_ng.Base.{
  length-append, append_assoc, inl, inr, lt→ltb, ltb_of_le, ℕ-cases, ==_refl, ==_of_ne,
}
use kados_ng.Mailbox.Slices.{index_middle, index_next, slice_answer, decode_response-take}

-- The answer to a property, by its tag.
abbrev pub find : MailboxProperty → List Entry → Option (List ℕ)
find t [] = none
find t (e ∷ es) =
    if e.property.tag == t.tag then some (take t.response_fields e.answer) else find t es

module _ (t : MailboxProperty) (e : Entry) (fuel size : ℕ) (xs ys : List ℕ) (entry : IsEntry e)
    (inside : length xs < size) where
  prop_size : max_size e.property / 2 ^ 2 ≡ room e.property
  prop_size = omega arith

  decode_here :
      e.property.tag ≡ t.tag
      → t.response_fields ≤ room e.property
      → decode_from (suc fuel) t (xs ++ (reply_block e ++ ys)) size (length xs)
        ≡ done (some (take t.response_fields e.answer))
  unfolding decode_from
  decode_here same fits =
      rw
        (
          lt→ltb (length xs) size inside,
          index_next xs e.property.tag (max_size e.property) (e.code ∷ (e.answer ++ ys)),
          index_middle xs e.property.tag (max_size e.property ∷ e.code ∷ (e.answer ++ ys)),
          same,
          ==_refl t.tag,
          prop_size,
          slice_answer xs t.tag (max_size e.property) e.code (room e.property) e.answer ys entry.1,
        )
        (decode_response-take t e.answer (omega arith))

  decode_next :
      e.property.tag ≢ t.tag
      → decode_from (suc fuel) t (xs ++ (reply_block e ++ ys)) size (length xs)
        ≡ decode_from fuel t (xs ++ (reply_block e ++ ys)) size (length xs + (room e.property + 3))
  unfolding decode_from
  decode_next differ =
      rw
        (
          lt→ltb (length xs) size inside,
          index_next xs e.property.tag (max_size e.property) (e.code ∷ (e.answer ++ ys)),
          index_middle xs e.property.tag (max_size e.property ∷ e.code ∷ (e.answer ++ ys)),
          ==_of_ne e.property.tag t.tag differ,
          prop_size,
        )
        refl

-- The response of a property that is in the reply has room for its fields.
abbrev pub HasRoom : MailboxProperty → Entry → Type 0
HasRoom t e = e.property.tag ≡ t.tag → t.response_fields ≤ room e.property

-- At the end of the reply, the loop reads the end tag and the word behind it, and stops.
decode_end :
    (fuel size : ℕ) (t : MailboxProperty) (xs : List ℕ) (g : ℕ) (rest : List ℕ)
    → t.tag ≢ 0
    → size ≡ length xs + 1
    → decode_from (suc fuel) t (xs ++ 0 ∷ g ∷ rest) size (length xs) ≡ done none
unfolding decode_from
decode_end fuel size t xs g rest tagged sized =
    rw
      (
        lt→ltb (length xs) size (omega arith),
        index_next xs 0 g rest,
        index_middle xs 0 (g ∷ rest),
        ==_of_ne 0 t.tag (λ e. tagged (sym e)),
      )
      (stop fuel)
  where
    stop :
        (fuel : ℕ)
        → decode_from fuel t (xs ++ 0 ∷ g ∷ rest) size (length xs + (g / 2 ^ 2 + 3)) ≡ done none
    stop zero = rw (ltb_of_le (length xs + (g / 2 ^ 2 + 3)) size (omega arith)) refl
    stop (suc fuel) = rw (ltb_of_le (length xs + (g / 2 ^ 2 + 3)) size (omega arith)) refl

decode_from-find :
    (es : List Entry) (fuel size : ℕ) (t : MailboxProperty) (xs : List ℕ) (g : ℕ) (rest : List ℕ)
    → All IsEntry es
    → All (HasRoom t) es
    → t.tag ≢ 0
    → length es < fuel
    → size ≡ length xs + length (replies es) + 1
    → decode_from fuel t (xs ++ (replies es ++ 0 ∷ g ∷ rest)) size (length xs) ≡ done (find t es)
decode_from-find es zero size t xs g rest h room_for tagged f sized = absurd (omega arith)
decode_from-find [] (suc fuel) size t xs g rest h room_for tagged f sized =
    decode_end fuel size t xs g rest tagged (omega arith)
decode_from-find (e ∷ es) (suc fuel) size t xs g rest (h, hs) (fits, fs) tagged f sized =
    let split = length-append (reply_block e) (replies es) in
    let tail = replies es ++ 0 ∷ g ∷ rest in
    let inside : length xs < size = omega arith in
    let whole : xs ++ ((reply_block e ++ replies es) ++ 0 ∷ g ∷ rest)
        ≡ xs ++ (reply_block e ++ tail) =
      ap (λ k. xs ++ k) (append_assoc (reply_block e) (replies es) (0 ∷ g ∷ rest)) in
    let after : length xs + (room e.property + 3) ≡ length (xs ++ reply_block e) =
      omega (arith, length-append xs (reply_block e)) in
    let regroup : xs ++ (reply_block e ++ tail) ≡ (xs ++ reply_block e) ++ tail =
      sym (append_assoc xs (reply_block e) tail) in
    ap (λ k. decode_from (suc fuel) t k size (length xs)) whole
    ∙ elim (ℕ-cases e.property.tag t.tag) [
      | inl same ↦
          decode_here t e fuel size xs tail h inside same (fits same)
          ∙ rw (same, ==_refl t.tag) refl
      | inr differ ↦
          decode_next t e fuel size xs tail h inside differ
          ∙ ap (λ n. decode_from fuel t (xs ++ (reply_block e ++ tail)) size n) after
          ∙ ap (λ k. decode_from fuel t k size (length (xs ++ reply_block e))) regroup
          ∙ decode_from-find es fuel size t (xs ++ reply_block e) g rest hs fs tagged (omega arith)
              (omega arith)
          ∙ rw (==_of_ne e.property.tag t.tag differ) refl
    ]

length-requests :
    (es : List Entry)
    → All IsEntry es
    → (length (requests es) ≡ length (replies es)) × (length es ≤ length (requests es))
length-requests [] h = omega arith
length-requests (e ∷ es) (h, hs) = omega (
  arith,
  length-requests es hs,
  length-append (request_block e) (requests es),
  length-append (reply_block e) (replies es),
  length-request_block e h,
)

-- The number of bytes that `finish` writes into a request.
abbrev pub size_of_request : List Entry → ℕ
size_of_request es = (length (requests es) + 3) * 4

two_words : (xs : List ℕ) → 2 ≤ length xs → (x y : ℕ) × (rest : List ℕ) × (xs ≡ x ∷ y ∷ rest)
two_words [] h = absurd (omega arith)
two_words (x ∷ []) h = absurd (omega arith)
two_words (x ∷ y ∷ rest) h = (x, y, rest, refl)

-- Properties that are encoded one after the other into a buffer, whatever it held, that has room
-- for its header, for them and for two words more, give a finished request that lists them in
-- order; and if the GPU answers each in its place, decoding a property with a nonzero tag and no
-- more fields than the places of its tag have room for gives the answer to the first property asked
-- for with its tag, or nothing if there is none. Nothing panics.
pub decode-encode_all :
    (t : MailboxProperty) (es : List Entry) (a b code : ℕ) (dma : List ℕ)
    → All IsEntry es
    → All (HasRoom t) es
    → t.tag ≢ 0
    → length (requests es) + 2 ≤ length dma
    → (rest : List ℕ) × ((encode_all es (new (a ∷ b ∷ dma)) >>= finish)
        ≡ done (size_of_request es ∷ 0 ∷ (requests es ++ 0 ∷ rest)))
      × (decode t (size_of_request es ∷ code ∷ (replies es ++ 0 ∷ rest)) ≡ done (find t es))
unfolding new decode buffer_size
decode-encode_all t es a b code dma h room_for tagged fits =
    let (left, sized, run) = encode_all-at es (a ∷ b ∷ []) dma h (omega arith) in
    let (y, g, rest, e) = two_words left (omega arith) in
    let run' : encode_all es (at (a ∷ b ∷ []) dma)
        ≡ done (at (a ∷ b ∷ requests es) (y ∷ g ∷ rest)) =
      rw e at run in
    let (same, enough) = length-requests es h in
    let n : size_of_request es / 2 ^ 2 ≡ length (requests es) + 3 = omega arith in
    (
      g ∷ rest,
      rw run' (finish-at a b (requests es) y (g ∷ rest)),
      rw n (
          decode_from-find es (length (requests es) + 3) (length (requests es) + 3) t
            (size_of_request es ∷ code ∷ []) g rest h room_for tagged (omega arith) (omega arith)),
    )
