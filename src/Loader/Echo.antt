-- ===== src/Loader/Echo.antt =====
-- What the client has read and written by the time it reports that the kernel is sent.
use kados_ng.Loader.Process.{
  Process, Party, End, send, receive, halt, ok, err, panic, out_of_fuel, act, step,
}
use kados_ng.Loader.Client.{
  send_kernel_inner, send_size, send_all, send_chunks, chunks, to_le_bytes,
}
use kados_ng.Loader.Client.{bytes_eq, await_breaks, await_ty, next_breaks}
use kados_ng.Loader.Phases.{Acts, rest, before, party}
use kados_ng.Loader.Sender.{join, join-chunks, take-append-drop, send_all_pos}
use kados_ng.Base.{ℕ, zero, suc, ◌%◌, ◌^◌, ◌≡◌, refl, ap, sym, ◌∙◌, arith, some}
use kados_ng.Base.{List, [], ◌∷◌, ◌++◌, length, append_assoc, take, drop, true, Bool-cases, ltb}
use kados_ng.Base.{if◌then◌else◌, inl, inr, get_or}

bytes_eq→eq : (xs ys : List ℕ) → bytes_eq xs ys ≡ true → xs ≡ ys
unfolding bytes_eq
bytes_eq→eq [] [] h = refl
bytes_eq→eq [] (y ∷ ys) h = cc
bytes_eq→eq (x ∷ xs) [] h = cc
bytes_eq→eq (x ∷ xs) (y ∷ ys) h = ground (arith, bytes_eq→eq xs ys)

act_receive :
    (n : ℕ) (k : List ℕ → Process) (p q : Party) (sent : List ℕ)
    → act (receive n k) p ≡ some (q, sent)
    → (record p { process = k (take n p.inbox); inbox = drop n p.inbox } ≡ q) × ([] ≡ sent)
unfolding act
act_receive n k p q sent h = ground arith

-- A party that has to read before it can halt has read by the time it has halted.
past_receive :
    (n : ℕ) (k : List ℕ → Process) (bs : List ℕ) (m r : ℕ → ℕ) (e : End) {s p : Party}
    {out : List ℕ}
    → Acts s p out
    → s ≡ party (receive n k) bs m r
    → p.process ≡ halt e
    → Acts (party (k (take n bs)) (drop n bs) m r) p out
unfolding step
past_receive n k bs m r e {s} {p} (rest h) hs hp =
    let clash : receive n k ≡ halt e = ap (λ (t : Party). t.process) (sym hs ∙ h) ∙ hp in cc
past_receive n k bs m r e {s} {p} (before {q = q} {sent = sent} {bs = out'} h a) hs hp =
    let h' : act (receive n k) (party (receive n k) bs m r) ≡ some (q, sent) = rw hs at h in
    let (to, none_sent) = act_receive n k (party (receive n k) bs m r) q sent h' in
    rw (to, ← none_sent) a

past_send :
    (xs : List ℕ) (k : Process) (bs : List ℕ) (m r : ℕ → ℕ) (e : End) {s p : Party} {out : List ℕ}
    → Acts s p out
    → s ≡ party (send xs k) bs m r
    → p.process ≡ halt e
    → (later : List ℕ) × (out ≡ xs ++ later) × Acts (party k bs m r) p later
unfolding step act
past_send xs k bs m r e {s} {p} (rest h) hs hp =
    let clash : send xs k ≡ halt e = ap (λ (t : Party). t.process) (sym hs ∙ h) ∙ hp in cc
past_send xs k bs m r e {s} {p} (before {q = q} {sent = sent} {bs = out'} h a) hs hp =
    let h' : act (send xs k) (party (send xs k) bs m r) ≡ some (q, sent) = rw hs at h in
    let to : party k bs m r ≡ q = cc in
    let all_sent : xs ≡ sent = cc in (out', rw all_sent refl, rw to a)

at_halt :
    (e : End) (bs : List ℕ) (m r : ℕ → ℕ) {s p : Party} {out : List ℕ}
    → Acts s p out
    → s ≡ party (halt e) bs m r
    → (party (halt e) bs m r ≡ p) × (out ≡ [])
unfolding step act
at_halt e bs m r (rest h) hs = (sym hs ∙ h, refl)
at_halt e bs m r (before {q = q} {sent} h a) hs =
    let h' : act (halt e) (party (halt e) bs m r) ≡ some (q, sent) = rw hs at h in cc

-- The client goes on after a comparison only if it succeeds.
past_test :
    (xs ys : List ℕ) (k : Process) (bs : List ℕ) (m r : ℕ → ℕ) {p : Party} {out : List ℕ}
    → Acts (party (if bytes_eq xs ys then k else halt err) bs m r) p out
    → p.process ≡ halt ok
    → (xs ≡ ys) × Acts (party k bs m r) p out
past_test xs ys k bs m r {p} a hp = elim (Bool-cases (bytes_eq xs ys)) [
  | inl same ↦ (bytes_eq→eq xs ys same, rw same at a)
  | inr differ ↦
      let a' = rw differ at a in
      let (stop, _) = at_halt err bs m r a' refl in
      let clash : halt err ≡ halt ok = ap (λ (t : Party). t.process) stop ∙ hp in cc
]

reads : (n : ℕ) (bs xs : List ℕ) → take n bs ≡ xs → bs ≡ xs ++ drop n bs
reads n bs xs e = rw (← e) (sym (take-append-drop n bs))

chunks_echoed :
    (it : List (List ℕ)) (bs : List ℕ) (m r : ℕ → ℕ) {p : Party} {out : List ℕ}
    → Acts (party (send_chunks it) bs m r) p out
    → p.process ≡ halt ok
    → (bs ≡ join it ++ (b'T' ∷ b'Y' ∷ b':' ∷ b')' ∷ p.inbox)) × (out ≡ join it)
unfolding send_chunks await_ty
chunks_echoed [] bs m r {p} a hp =
    let (e, a') = past_test _ _ _ _ _ _ (past_receive 4 _ bs m r ok a refl hp) hp in
    let (stop, silent) = at_halt ok _ _ _ a' refl in
    (reads 4 bs _ e ∙ ap (λ (t : Party). b'T' ∷ b'Y' ∷ b':' ∷ b')' ∷ t.inbox) stop, silent)
chunks_echoed (chunk ∷ it) bs m r {p} a hp =
    let (later, sent, a1) = past_send chunk _ bs m r ok a refl hp in
    let a2 = past_receive (length chunk) _ bs m r ok a1 refl hp in
    let (e, a3) = past_test _ _ _ _ _ _ a2 hp in
    let (input, output) = chunks_echoed it (drop (length chunk) bs) m r a3 hp in
    (
      reads (length chunk) bs chunk e ∙ ap (λ t. chunk ++ t) input ∙ sym (append_assoc chunk _ _),
      sent ∙ ap (λ t. chunk ++ t) output,
    )

send_all_zero : (kernel : List ℕ) → send_all 0 kernel ≡ halt panic
unfolding send_all
send_all_zero kernel = refl

kernel_echoed :
    (chunk_size : ℕ) (kernel bs : List ℕ) (m r : ℕ → ℕ) {p : Party} {out : List ℕ}
    → Acts (party (send_all chunk_size kernel) bs m r) p out
    → p.process ≡ halt ok
    → (bs ≡ kernel ++ (b'T' ∷ b'Y' ∷ b':' ∷ b')' ∷ p.inbox)) × (out ≡ kernel)
kernel_echoed zero kernel bs m r {p} a hp =
    let (stop, _) = at_halt panic bs m r (rw (send_all_zero kernel) at a) refl in
    let clash : halt panic ≡ halt ok = ap (λ (t : Party). t.process) stop ∙ hp in cc
kernel_echoed (suc size) kernel bs m r a hp = rw (join-chunks (suc size) kernel (omega arith)) at (
    chunks_echoed (chunks (suc size) kernel) bs m r
      (rw (send_all_pos (suc size) kernel (omega arith)) at a) hp)

-- The reads of the loop that waits for the breaks are the first part of the input.
past_breaks :
    (fuel n : ℕ) (k : Process) (bs : List ℕ) (m r : ℕ → ℕ) {p : Party} {out : List ℕ}
    → Acts (party (await_breaks fuel n k) bs m r) p out
    → p.process ≡ halt ok
    → (noise later : List ℕ) × (bs ≡ noise ++ later) × Acts (party k later m r) p out
unfolding await_breaks
past_breaks zero n k bs m r {p} a hp = elim (Bool-cases (ltb n 3)) [
  | inl more ↦
      let (stop, _) = at_halt out_of_fuel bs m r (rw more at a) refl in
      let clash : halt out_of_fuel ≡ halt ok = ap (λ (t : Party). t.process) stop ∙ hp in cc
  | inr over ↦ ([], bs, refl, rw over at a)
]
past_breaks (suc fuel) n k bs m r a hp = elim (Bool-cases (ltb n 3)) [
  | inl more ↦
      let (noise, later, e, a') =
        past_breaks fuel (next_breaks n (get_or (take 1 bs) 0 0)) k (drop 1 bs) m r
          (past_receive 1 _ bs m r ok (rw more at a) refl hp) hp in
      (
        take 1 bs ++ noise,
        later,
        reads 1 bs _ refl ∙ ap (λ t. take 1 bs ++ t) e ∙ sym (append_assoc (take 1 bs) noise later),
        a',
      )
  | inr over ↦ ([], bs, refl, rw over at a)
]

-- `send_kernel_inner` returns without an error only if, after some first bytes, it has read `OK`,
-- each byte of the kernel back in order, and `TY:)`; it has then sent the length of the kernel and
-- the kernel, and read no further.
pub send_kernel_inner_echoed :
    (fuel chunk_size : ℕ) (kernel bs : List ℕ) (m r : ℕ → ℕ) (p : Party) (out : List ℕ)
    → Acts (party (send_kernel_inner fuel chunk_size kernel) bs m r) p out
    → p.process ≡ halt ok
    → (noise : List ℕ) × (bs
        ≡ noise ++ (b'O' ∷ b'K' ∷ (kernel ++ (b'T' ∷ b'Y' ∷ b':' ∷ b')' ∷ p.inbox))))
      × (out ≡ to_le_bytes (length kernel % 2 ^ 32) ++ kernel)
unfolding send_kernel_inner send_size
send_kernel_inner_echoed fuel chunk_size kernel bs m r p out a hp =
    let (noise, later, e, a1) = past_breaks fuel 0 _ bs m r a hp in
    let (sent, size_sent, a2) = past_send _ _ later m r ok a1 refl hp in
    let (ok_read, a3) = past_test _ _ _ _ _ _ (past_receive 2 _ later m r ok a2 refl hp) hp in
    let (echo, kernel_sent) = kernel_echoed chunk_size kernel (drop 2 later) m r a3 hp in
    (
      noise,
      e ∙ ap (λ t. noise ++ t) (reads 2 later _ ok_read ∙ ap (λ t. b'O' ∷ b'K' ∷ t) echo),
      size_sent ∙ ap (λ t. to_le_bytes (length kernel % 2 ^ 32) ++ t) kernel_sent,
    )
