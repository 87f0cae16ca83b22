-- ===== src/Loader/Sender.antt =====
-- How `send_kernel_inner` gets from one exchange with the device to the next.
use kados_ng.Loader.Process.{Process, receive, Party, act, step, halt, ok, err}
use kados_ng.Loader.Client.{bytes_eq, to_le_bytes, next_breaks, await_breaks, send_size, send_all}
use kados_ng.Loader.Client.{send_chunks, await_ty, chunks, chunks_loop}
use kados_ng.Loader.Phases.{Acts, Acts-step, rest, party, Acts-receive}
use kados_ng.Base.{ℕ, zero, suc, ◌+◌, ◌%◌, ◌^◌, ◌<◌, ◌≤◌, ◌≡◌, refl, ap, arith, true}
use kados_ng.Base.{
  List, [], ◌∷◌, ◌++◌, length, take, drop, length-drop, append-nil, ==_refl, if◌then◌else◌, lt→ltb,
}

pub bytes_eq_refl : (xs : List ℕ) → bytes_eq xs xs ≡ true
unfolding bytes_eq
bytes_eq_refl [] = refl
bytes_eq_refl (x ∷ xs) = rw (==_refl x) (bytes_eq_refl xs)

-- Output of the device's earlier life, in which the client, having seen so many breaks, does not see
-- three in a row, and which does not end in a break.
abbrev pub IsQuiet : ℕ → List ℕ → Type 0
IsQuiet num_breaks [] = num_breaks ≡ 0
IsQuiet num_breaks (c ∷ cs) = (next_breaks num_breaks c < 3) × IsQuiet (next_breaks num_breaks c) cs

await_breaks_over : (fuel : ℕ) (k : Process) → await_breaks fuel 3 k ≡ k
unfolding await_breaks
await_breaks_over zero k = refl
await_breaks_over (suc fuel) k = refl

await_breaks_more :
    (fuel n : ℕ) (k : Process) (c : ℕ) (bs : List ℕ) {p : Party} {m r : ℕ → ℕ} {out : List ℕ}
    → n < 3
    → Acts (party (await_breaks fuel (next_breaks n c) k) bs m r) p out
    → Acts (party (await_breaks (suc fuel) n k) (c ∷ bs) m r) p out
unfolding await_breaks
await_breaks_more fuel n k c bs h a = rw (lt→ltb n 3 h) (Acts-receive _ (c ∷ []) a)

pub await_breaks-Acts :
    (noise : List ℕ) (fuel n : ℕ) (k : Process) (m r : ℕ → ℕ)
    → n < 3
    → IsQuiet n noise
    → length noise + 3 ≤ fuel
    → Acts (party (await_breaks fuel n k) (noise ++ 3 ∷ 3 ∷ 3 ∷ []) m r) (party k [] m r) []
await_breaks-Acts (c ∷ cs) (suc fuel) n k m r h (q, qs) f =
    await_breaks_more fuel n k c _ h
      (await_breaks-Acts cs fuel (next_breaks n c) k m r q qs (omega arith))
await_breaks-Acts (c ∷ cs) zero n k m r h q f = absurd (omega arith)
await_breaks-Acts [] (suc (suc (suc fuel))) n k m r h q f = rw q (
    await_breaks_more (suc (suc fuel)) 0 k 3 _ (omega arith) (
      await_breaks_more (suc fuel) 1 k 3 _ (omega arith)
        (await_breaks_more fuel 2 k 3 _ (omega arith) (rest (rw (await_breaks_over fuel k) refl)))))
await_breaks-Acts [] fuel n k m r h q f = absurd (omega arith)

abbrev pub after_size : ℕ → List ℕ → Process
after_size chunk_size kernel =
    receive 2
      λ ok'. if bytes_eq ok' (b'O' ∷ b'K' ∷ []) then send_all chunk_size kernel else halt err

pub send_size-Acts :
    (chunk_size : ℕ) (kernel bs : List ℕ) (m r : ℕ → ℕ)
    → Acts
        (party (send_size chunk_size kernel) bs m r)
        (party (after_size chunk_size kernel) bs m r)
        (to_le_bytes (length kernel % 2 ^ 32))
unfolding send_size step act to_le_bytes
send_size-Acts chunk_size kernel bs m r = Acts-step refl

pub send_all_pos :
    (chunk_size : ℕ) (kernel : List ℕ)
    → 0 < chunk_size
    → send_all chunk_size kernel ≡ send_chunks (chunks chunk_size kernel)
unfolding send_all
send_all_pos chunk_size kernel h = ground arith

pub after_size-Acts :
    (chunk_size : ℕ) (kernel : List ℕ) (m r : ℕ → ℕ)
    → 0 < chunk_size
    → Acts
        (party (after_size chunk_size kernel) (b'O' ∷ b'K' ∷ []) m r)
        (party (send_chunks (chunks chunk_size kernel)) [] m r)
        []
unfolding bytes_eq
after_size-Acts chunk_size kernel m r h =
    Acts-receive _ (b'O' ∷ b'K' ∷ [])
      (rest (ap (λ k. party k [] m r) (send_all_pos chunk_size kernel h)))

abbrev pub after_chunk : List ℕ → List (List ℕ) → Process
after_chunk chunk it =
    receive (length chunk) λ echo. if bytes_eq echo chunk then send_chunks it else halt err

pub send_chunk-Acts :
    (chunk : List ℕ) (it : List (List ℕ)) (m r : ℕ → ℕ)
    → Acts (party (send_chunks (chunk ∷ it)) [] m r) (party (after_chunk chunk it) [] m r) chunk
unfolding send_chunks step act
send_chunk-Acts chunk it m r = Acts-step refl

pub after_chunk-Acts :
    (chunk : List ℕ) (it : List (List ℕ)) (m r : ℕ → ℕ)
    → Acts (party (after_chunk chunk it) chunk m r) (party (send_chunks it) [] m r) []
after_chunk-Acts chunk it m r =
    let a : Acts (party (after_chunk chunk it) (chunk ++ []) m r) (party (send_chunks it) [] m r)
        [] =
      Acts-receive _ chunk (rest (rw (bytes_eq_refl chunk) refl)) in
    rw (append-nil chunk) at a

pub await_ty-Acts :
    (m r : ℕ → ℕ)
    → Acts (party (send_chunks []) (b'T' ∷ b'Y' ∷ b':' ∷ b')' ∷ []) m r) (party (halt ok) [] m r) []
unfolding send_chunks await_ty bytes_eq
await_ty-Acts m r = Acts-receive _ (b'T' ∷ b'Y' ∷ b':' ∷ b')' ∷ []) (rest refl)

-- The chunks are the bytes, in order.
abbrev pub join : List (List ℕ) → List ℕ
join [] = []
join (c ∷ cs) = c ++ join cs

pub take-append-drop : (n : ℕ) (xs : List ℕ) → take n xs ++ drop n xs ≡ xs
take-append-drop zero xs = refl
take-append-drop (suc n) [] = refl
take-append-drop (suc n) (x ∷ xs) = ap (λ t. x ∷ t) (take-append-drop n xs)

join-chunks_loop :
    (fuel size : ℕ) (xs : List ℕ)
    → 0 < size
    → length xs ≤ fuel
    → join (chunks_loop fuel size xs) ≡ xs
unfolding chunks_loop
join-chunks_loop fuel size [] h f = refl
join-chunks_loop zero size (x ∷ xs) h f = absurd (omega arith)
join-chunks_loop (suc fuel) zero (x ∷ xs) h f = absurd (omega arith)
join-chunks_loop (suc fuel) (suc size) (x ∷ xs) h f =
    rw (join-chunks_loop fuel (suc size) (drop size xs) h (omega (arith, length-drop size xs)))
      (take-append-drop (suc size) (x ∷ xs))

pub join-chunks : (size : ℕ) (xs : List ℕ) → 0 < size → join (chunks size xs) ≡ xs
unfolding chunks
join-chunks size xs h = join-chunks_loop (length xs) size xs h (omega arith)
