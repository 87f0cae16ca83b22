-- ===== src/Mailbox/Request.antt =====
-- What a request holds when it is finished.
use kados_ng.Mailbox.Buffer.{MailboxProperty, MailboxRequest, Checked, done, ◌>>=◌, int, encode}
use kados_ng.Mailbox.Buffer.{encode_request, add_placeholders, finish}
use kados_ng.Mailbox.Buffer.{max_size}
use kados_ng.Base.{
  ℕ, zero, suc, ◌+◌, ◌-◌, ◌*◌, ◌/◌, ◌^◌, ◌≤◌, max, List, [], ◌∷◌, ◌++◌, ◌≡◌, refl, ap, ◌∙◌, arith,
}
use kados_ng.Base.{length, set, drop, replicate, All}
use kados_ng.Base.{length-append, append_assoc, append-nil, length-replicate, lt→ltb, length-drop}

-- A property that is asked for, with the fields of the request, and the answer to it.
pub record Entry : Type 0 where
  pub property : MailboxProperty
  pub fields : List ℕ
  pub code : ℕ
  pub answer : List ℕ

-- The words for the values of a property: those of its request or of its response, if more.
abbrev pub room : MailboxProperty → ℕ
room t = max t.request_fields t.response_fields

abbrev pub request_block : Entry → List ℕ
request_block e =
    e.property.tag
    ∷ max_size e.property
    ∷ 0
    ∷ (e.fields ++ replicate (room e.property - e.property.request_fields) 0)

abbrev pub reply_block : Entry → List ℕ
reply_block e = e.property.tag ∷ max_size e.property ∷ e.code ∷ e.answer

abbrev pub requests : List Entry → List ℕ
requests [] = []
requests (e ∷ es) = request_block e ++ requests es

abbrev pub replies : List Entry → List ℕ
replies [] = []
replies (e ∷ es) = reply_block e ++ replies es

-- The fields are those of the request, and the answer fills the words for the values.
abbrev pub IsEntry : Entry → Type 0
IsEntry e = (length e.fields ≡ e.property.request_fields) × (length e.answer ≡ room e.property)

unfoldable pub encode_all : List Entry → MailboxRequest → Checked MailboxRequest
encode_all [] r = done r
encode_all (e ∷ es) r = encode e.property e.fields r >>= encode_all es

abbrev pub at : List ℕ → List ℕ → MailboxRequest
at xs ys = record { buf = xs ++ ys; index = length xs }

set_middle :
    (xs : List ℕ) (y v : ℕ) (ys : List ℕ) → set (xs ++ y ∷ ys) (length xs) v ≡ (xs ++ v ∷ []) ++ ys
set_middle [] y v ys = refl
set_middle (x ∷ xs) y v ys = ap (λ t. x ∷ t) (set_middle xs y v ys)

int-at :
    (v : ℕ) (xs : List ℕ) (y : ℕ) (ys : List ℕ)
    → int v (at xs (y ∷ ys)) ≡ done (at (xs ++ v ∷ []) ys)
unfolding int
int-at v xs y ys =
    rw
      (
        lt→ltb (length xs) (length (xs ++ y ∷ ys)) (omega (arith, length-append xs (y ∷ ys))),
        set_middle xs y v ys,
      )
      (ap (λ n. done (record { buf = (xs ++ v ∷ []) ++ ys; index = n }))
        (omega (arith, length-append xs (v ∷ []))))

encode_request-at :
    (vs xs ys : List ℕ)
    → length vs ≤ length ys
    → encode_request vs (at xs ys) ≡ done (at (xs ++ vs) (drop (length vs) ys))
unfolding encode_request
encode_request-at [] xs ys h = rw (append-nil xs) refl
encode_request-at (v ∷ vs) xs [] h = absurd (omega arith)
encode_request-at (v ∷ vs) xs (y ∷ ys) h = rw (int-at v xs y ys) (
    encode_request-at vs (xs ++ v ∷ []) ys (omega arith)
    ∙ ap (λ t. done (at t (drop (length vs) ys))) (append_assoc xs (v ∷ []) vs))

add_placeholders-at :
    (n : ℕ) (xs ys : List ℕ)
    → n ≤ length ys
    → add_placeholders n (at xs ys) ≡ done (at (xs ++ replicate n 0) (drop n ys))
unfolding add_placeholders
add_placeholders-at zero xs ys h = rw (append-nil xs) refl
add_placeholders-at (suc n) xs [] h = absurd (omega arith)
add_placeholders-at (suc n) xs (y ∷ ys) h = rw (int-at 0 xs y ys) (
    add_placeholders-at n (xs ++ 0 ∷ []) ys (omega arith)
    ∙ ap (λ t. done (at t (drop n ys))) (append_assoc xs (0 ∷ []) (replicate n 0)))

pub length-request_block : (e : Entry) → IsEntry e → length (request_block e) ≡ 3 + room e.property
length-request_block e h = omega (
  arith,
  length-append e.fields (replicate (room e.property - e.property.request_fields) 0),
  length-replicate {A = ℕ} (room e.property - e.property.request_fields) 0,
)

-- The words behind those that an encoding writes are as many fewer, and unchanged.
encode-at :
    (e : Entry) (xs ys : List ℕ)
    → IsEntry e
    → length (request_block e) ≤ length ys
    → (rest : List ℕ) × (length (request_block e) + length rest ≡ length ys)
      × (encode e.property e.fields (at xs ys) ≡ done (at (xs ++ request_block e) rest))
unfolding encode
encode-at e xs (y1 ∷ y2 ∷ y3 ∷ ys) h fits =
    let t = e.property in
    let start = ((xs ++ t.tag ∷ []) ++ max_size t ∷ []) ++ 0 ∷ [] in
    let left = room t - t.request_fields in
    let sized = length-request_block e h in
    let rounds : length start + max_size t / 2 ^ 2 - length (start ++ e.fields) ≡ left =
      omega (arith, length-append start e.fields) in
    let shape : (start ++ e.fields) ++ replicate left 0 ≡ xs ++ request_block e =
      simp append_assoc in
    (
      drop left (drop (length e.fields) ys),
      omega (arith, length-drop left (drop (length e.fields) ys), length-drop (length e.fields) ys),
      rw
          (
            int-at t.tag xs y1 (y2 ∷ y3 ∷ ys),
            int-at (max_size t) (xs ++ t.tag ∷ []) y2 (y3 ∷ ys),
            int-at 0 ((xs ++ t.tag ∷ []) ++ max_size t ∷ []) y3 ys,
            encode_request-at e.fields start ys (omega arith),
            rounds,
          )
          (add_placeholders-at left (start ++ e.fields) (drop (length e.fields) ys)
              (omega (arith, length-drop (length e.fields) ys))
            ∙ ap (λ k. done (at k (drop left (drop (length e.fields) ys)))) shape),
    )
encode-at e xs ys h fits = absurd (omega (arith, length-request_block e h))

pub encode_all-at :
    (es : List Entry) (xs ys : List ℕ)
    → All IsEntry es
    → length (requests es) ≤ length ys
    → (rest : List ℕ) × (length (requests es) + length rest ≡ length ys)
      × (encode_all es (at xs ys) ≡ done (at (xs ++ requests es) rest))
unfolding encode_all
encode_all-at [] xs ys h fits = (ys, omega arith, rw (append-nil xs) refl)
encode_all-at (e ∷ es) xs ys (h, hs) fits =
    let split = length-append (request_block e) (requests es) in
    let (ys', size1, run1) = encode-at e xs ys h (omega arith) in
    let (rest, size2, run2) = encode_all-at es (xs ++ request_block e) ys' hs (omega arith) in
    (
      rest,
      omega arith,
      rw run1 (run2 ∙ ap (λ t. done (at t rest)) (append_assoc xs (request_block e) (requests es))),
    )

pub finish-at :
    (a b : ℕ) (xs : List ℕ) (y : ℕ) (ys : List ℕ)
    → finish (at (a ∷ b ∷ xs) (y ∷ ys)) ≡ done ((length xs + 3) * 4 ∷ 0 ∷ (xs ++ 0 ∷ ys))
unfolding finish
finish-at a b xs y ys = rw (int-at 0 ((suc (suc (length xs)) + 1) * 4 ∷ 0 ∷ xs) y ys) (
    ap (λ n. done (n ∷ 0 ∷ ((xs ++ 0 ∷ []) ++ ys))) size
    ∙ ap (λ t. done ((length xs + 3) * 4 ∷ 0 ∷ t)) (append_assoc xs (0 ∷ []) ys))
  where
    size : (suc (suc (length xs)) + 1) * 4 ≡ (length xs + 3) * 4
    size = omega arith
