-- ===== src/Loader/Transfer.antt =====
-- A kernel that the client sends arrives whole.
use mathlib.Core.WellFounded.{Acc}
use kados_ng.Loader.Process.{Party, halt, jump, ok, System, Steps, IsFinal, deliver}
use kados_ng.Loader.Process.{act, step, advance}
use kados_ng.Loader.Chainloader.{recv, receive_kernel, load_kernel, kernel_len_of, kernel_load_addr}
use kados_ng.Loader.Client.{send_kernel_inner, send_size, send_chunks, chunks, to_le_bytes}
use kados_ng.Loader.Phases.{Acts, Acts-device, Acts-client, Steps-append, system, party}
use kados_ng.Loader.Device.{
  recv-Acts, receive_kernel-Acts, load_kernel-Acts, finish-Acts, loaded, loaded-append, loaded_at,
  loaded_above, loaded_below, uart_ready,
}
use kados_ng.Loader.Sender.{await_breaks-Acts, send_size-Acts, after_size, after_size-Acts}
use kados_ng.Loader.Sender.{
  send_chunk-Acts, after_chunk-Acts, await_ty-Acts, join, join-chunks, IsQuiet,
}
use kados_ng.Loader.Length.{kernel_len_of-le_bytes}
use kados_ng.Loader.Schedule.{Steps-finish, After, Acc_of_Steps}
use kados_ng.Base.{ℕ, ◌+◌, ◌%◌, ◌^◌, ◌/◌, ◌<◌, ◌≤◌, ◌≡◌, refl, ◌∙◌, arith, some, get_elem?}
use kados_ng.Base.{List, [], ◌∷◌, ◌++◌, length, length-append}

-- The system as the device comes up, with the bytes that it sent before still on the line.
unfoldable pub power_cycled : ℕ → ℕ → List ℕ → List ℕ → (ℕ → ℕ) → (ℕ → ℕ) → System
power_cycled fuel chunk_size kernel noise m r = record {
  device = party recv [] m r;
  client = party (send_kernel_inner fuel chunk_size kernel) noise (λ _. 0) (λ _. 0);
}

-- The device has jumped into the kernel, and the client has returned.
abbrev pub IsTransferred : List ℕ → (ℕ → ℕ) → System → Type 0
IsTransferred kernel m s =
    (s.device.process ≡ halt (jump kernel_load_addr))
    × (s.client.process ≡ halt ok)
    × ((i : ℕ) (x : ℕ) → get_elem? kernel i ≡ some x → s.device.memory (kernel_load_addr + i) ≡ x)
    × ((a : ℕ) → a < kernel_load_addr → s.device.memory a ≡ m a)
    × ((a : ℕ) → kernel_load_addr + length kernel ≤ a → s.device.memory a ≡ m a)

data Runs (s t : System) : Type 0 where
  run : (n : ℕ) → Steps n s t → Runs s t

run_on : {s t u : System} → Runs s t → Runs t u → Runs s u
run_on (run m a) (run n b) = let (k, c) = Steps-append a b in run k c

by_device :
    {d d' : Party} {sent : List ℕ} (c : Party)
    → Acts d d' sent
    → Runs (system d c) (system d' (deliver sent c))
by_device c a = let (n, steps) = Acts-device c a in run n steps

by_client :
    {c c' : Party} {sent : List ℕ} (d : Party)
    → Acts c c' sent
    → Runs (system d c) (system (deliver sent d) c')
by_client d a = let (n, steps) = Acts-client d a in run n steps

abbrev transferred : ℕ → List ℕ → (ℕ → ℕ) → (ℕ → ℕ) → (ℕ → ℕ) → (ℕ → ℕ) → System
transferred i bytes m r m' r' =
    system (party (halt (jump kernel_load_addr)) [] (loaded i bytes m) r) (party (halt ok) [] m' r')

-- The exchange of the chunks that are left.
chunks_run :
    (it : List (List ℕ)) (i : ℕ) (m r m' r' : ℕ → ℕ)
    → Runs
        (system (party (load_kernel (length (join it)) i) [] m r) (party (send_chunks it) [] m' r'))
        (transferred i (join it) m r m' r')
unfolding deliver
chunks_run [] i m r m' r' =
    run_on (by_device _ (finish-Acts i m r)) (by_client _ (await_ty-Acts m' r'))
chunks_run (chunk ∷ it) i m r m' r' =
    rw (loaded-append chunk (join it) i (i + length chunk) m refl) (
      run_on (by_client _ (send_chunk-Acts chunk it m' r')) (
        run_on
          (by_device _ (
            load_kernel-Acts chunk (length (chunk ++ join it)) (length (join it)) i
              (i + length chunk) m r (length-append chunk (join it)) refl))
          (run_on (by_client _ (after_chunk-Acts chunk it m' r'))
            (chunks_run it (i + length chunk) (loaded i chunk m) r m' r'))))

kernel_run :
    (chunk_size rounds : ℕ) (kernel : List ℕ) (m r m' r' : ℕ → ℕ)
    → 0 < chunk_size
    → rounds ≡ length kernel
    → Runs
        (system
          (party (load_kernel rounds 0) [] m r)
          (party (send_chunks (chunks chunk_size kernel)) [] m' r'))
        (transferred 0 kernel m r m' r')
kernel_run chunk_size rounds kernel m r m' r' h e =
    let run_all = chunks_run (chunks chunk_size kernel) 0 m r m' r' in
    rw e (rw (join-chunks chunk_size kernel h) at run_all)

rounds_lem :
    (n : ℕ)
    → n < 2 ^ 32
    → kernel_len_of
        (n % 2 ^ 32 % 2 ^ 8)
        (n % 2 ^ 32 / 2 ^ 8 % 2 ^ 8)
        (n % 2 ^ 32 / 2 ^ 16 % 2 ^ 8)
        (n % 2 ^ 32 / 2 ^ 24 % 2 ^ 8)
      ≡ n
rounds_lem n h = kernel_len_of-le_bytes (n % 2 ^ 32) (omega arith) ∙ omega arith

-- The exchange of the length, and then of the chunks.
size_run :
    (chunk_size : ℕ) (kernel : List ℕ) (m r m' r' : ℕ → ℕ)
    → 0 < chunk_size
    → length kernel < 2 ^ 32
    → Runs
        (system (party receive_kernel [] m r) (party (send_size chunk_size kernel) [] m' r'))
        (transferred 0 kernel m r m' r')
unfolding deliver to_le_bytes
size_run chunk_size kernel m r m' r' hc hk =
    run_on (by_client (party receive_kernel [] m r) (send_size-Acts chunk_size kernel [] m' r')) (
      run_on
        (by_device (party (after_size chunk_size kernel) [] m' r')
          (receive_kernel-Acts _ _ _ _ [] m r))
        (run_on (by_client _ (after_size-Acts chunk_size kernel m' r' hc))
          (kernel_run chunk_size _ kernel m r m' r' hc (rounds_lem (length kernel) hk))))

-- The whole exchange, in one of the orders in which it can happen.
transfer_run :
    (fuel chunk_size : ℕ) (kernel noise : List ℕ) (m r : ℕ → ℕ)
    → 0 < chunk_size
    → length kernel < 2 ^ 32
    → IsQuiet 0 noise
    → length noise + 3 ≤ fuel
    → Runs
        (power_cycled fuel chunk_size kernel noise m r)
        (transferred 0 kernel m (uart_ready r) (λ _. 0) (λ _. 0))
unfolding power_cycled deliver send_kernel_inner
transfer_run fuel chunk_size kernel noise m r hc hk q f = run_on (by_device _ (recv-Acts [] m r)) (
    run_on
      (by_client (party receive_kernel [] m (uart_ready r)) (
        await_breaks-Acts noise fuel 0 (send_size chunk_size kernel) (λ _. 0) (λ _. 0) (omega arith)
          q f))
      (size_run chunk_size kernel m (uart_ready r) (λ _. 0) (λ _. 0) hc hk))

transferred-IsFinal :
    (kernel : List ℕ) (m r m' r' : ℕ → ℕ) → IsFinal (transferred 0 kernel m r m' r')
unfolding advance step act
transferred-IsFinal kernel m r m' r' = record { device_stuck = refl; client_stuck = refl }

transferred-IsTransferred :
    (kernel : List ℕ) (m r m' r' : ℕ → ℕ) → IsTransferred kernel m (transferred 0 kernel m r m' r')
transferred-IsTransferred kernel m r m' r' = (
  refl,
  refl,
  λ i x e. loaded_at kernel 0 i x (kernel_load_addr + i) m (omega arith) e,
  λ a h. loaded_below kernel 0 a m (omega arith),
  λ a h. loaded_above kernel 0 a m (omega arith),
)

-- A kernel shorter than 2 ^ 32 bytes, sent in chunks of at least one byte, arrives in whatever
-- order the device and the client act, if what the device sent before holds no three breaks in a
-- row and does not end in one, and the client's fuel covers it and three bytes more. From every
-- system that a run has reached, no run goes on for ever, and some run ends with the client
-- returning and the device jumping to `KERNEL_LOAD_ADDR`; the kernel's bytes then stand there in
-- order, and no other memory has changed.
pub transfer_total :
    (fuel chunk_size : ℕ) (kernel noise : List ℕ) (m r : ℕ → ℕ) (k : ℕ) (s : System)
    → 0 < chunk_size
    → length kernel < 2 ^ 32
    → IsQuiet 0 noise
    → length noise + 3 ≤ fuel
    → Steps k (power_cycled fuel chunk_size kernel noise m r) s
    → Acc After s
      × (t : System) × (left : ℕ) × Steps left s t
      × IsFinal t
      × IsTransferred kernel m t
transfer_total fuel chunk_size kernel noise m r k s hc hk q f steps =
    let final = transferred-IsFinal kernel m (uart_ready r) (λ _. 0) (λ _. 0) in
    let done = transferred-IsTransferred kernel m (uart_ready r) (λ _. 0) (λ _. 0) in
    elim (transfer_run fuel chunk_size kernel noise m r hc hk q f) [
      | run n whole ↦
          let (left, e, others) = Steps-finish k n steps whole final in
          (Acc_of_Steps left others final, _, left, others, final, done)
    ]
