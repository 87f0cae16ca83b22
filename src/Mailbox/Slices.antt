-- ===== src/Mailbox/Slices.antt =====
-- What is read at and behind the end of the first part of a buffer.
use kados_ng.Mailbox.Buffer.{MailboxProperty, done, ◌>>=◌}
use kados_ng.Mailbox.Buffer.{decode_response, decode_fields, index_or_panic, slice}
use kados_ng.Base.{ℕ, zero, suc, ◌+◌, ◌≤◌, List, [], ◌∷◌, ◌++◌, ◌≡◌, refl, ap, ◌∙◌, sym, arith}
use kados_ng.Base.{some, length, take, drop}
use kados_ng.Base.{length-append, append_assoc}

-- The index of the element behind the first part of a list.
pub index_middle :
    (xs : List ℕ) (y : ℕ) (ys : List ℕ) → index_or_panic (xs ++ y ∷ ys) (length xs) ≡ done y
unfolding index_or_panic
index_middle [] y ys = refl
index_middle (x ∷ xs) y ys = index_middle xs y ys

pub index_next :
    (xs : List ℕ) (y z : ℕ) (ys : List ℕ)
    → index_or_panic (xs ++ y ∷ z ∷ ys) (length xs + 1) ≡ done z
index_next xs y z ys =
    let next : length xs + 1 ≡ length (xs ++ y ∷ []) = omega (arith, length-append xs (y ∷ [])) in
    rw (next, ← append_assoc xs (y ∷ []) (z ∷ ys)) (index_middle (xs ++ y ∷ []) z ys)

drop_middle :
    (xs : List ℕ) (a b c : ℕ) (ys : List ℕ) → drop (length xs + 3) (xs ++ a ∷ b ∷ c ∷ ys) ≡ ys
drop_middle [] a b c ys = refl
drop_middle (x ∷ xs) a b c ys =
    ap (λ n. drop n (x ∷ (xs ++ a ∷ b ∷ c ∷ ys))) (suc_add (length xs)) ∙ drop_middle xs a b c ys
  where
    suc_add : (n : ℕ) → suc n + 3 ≡ suc (n + 3)
    suc_add n = omega arith

take_first : (xs ys : List ℕ) → take (length xs) (xs ++ ys) ≡ xs
take_first [] ys = refl
take_first (x ∷ xs) ys = ap (λ t. x ∷ t) (take_first xs ys)

pub slice_answer :
    (xs : List ℕ) (a b c n : ℕ) (answer ys : List ℕ)
    → length answer ≡ n
    → slice (xs ++ a ∷ b ∷ c ∷ (answer ++ ys)) (length xs + 3) (length xs + 3 + n) ≡ done answer
unfolding slice
slice_answer xs a b c n answer ys h = ground (
  arith,
  length-append xs (a ∷ b ∷ c ∷ (answer ++ ys)),
  length-append answer ys,
  drop_middle xs a b c (answer ++ ys),
  take_first answer ys,
)

decode_fields-take :
    (k : ℕ) (zs ys : List ℕ)
    → k ≤ length ys
    → decode_fields k (length zs) (zs ++ ys) ≡ done (take k ys)
unfolding decode_fields
decode_fields-take zero zs ys h = refl
decode_fields-take (suc k) zs [] h = absurd (omega arith)
decode_fields-take (suc k) zs (y ∷ ys) h =
    let from : length zs + 1 ≡ length (zs ++ y ∷ []) = omega (arith, length-append zs (y ∷ [])) in
    let all : zs ++ y ∷ ys ≡ (zs ++ y ∷ []) ++ ys = sym (append_assoc zs (y ∷ []) ys) in
    rw (index_middle zs y ys) (
      ap (λ r. r >>= λ fields. done (y ∷ fields))
        (ap (λ n. decode_fields k n (zs ++ y ∷ ys)) from
          ∙ ap (decode_fields k (length (zs ++ y ∷ []))) all
          ∙ decode_fields-take k (zs ++ y ∷ []) ys (omega arith)))

pub decode_response-take :
    (t : MailboxProperty) (ys : List ℕ)
    → t.response_fields ≤ length ys
    → decode_response t ys ≡ done (some (take t.response_fields ys))
unfolding decode_response
decode_response-take t ys h = rw (decode_fields-take t.response_fields [] ys h) refl
