-- ===== src/Loader/Client.antt =====
-- tools/loader/src/client.rs: `send_kernel_inner`, which sends a kernel to the chain loader. The
-- connection stays open, so a read waits until its bytes come.
use kados_ng.Loader.Process.{Process, send, receive, halt, ok, err, panic, out_of_fuel}
use kados_ng.Base.{ℕ, zero, suc, ◌+◌, ◌/◌, ◌%◌, ◌^◌, List, [], ◌∷◌, Bool, true, false, ◌&&◌}
use kados_ng.Base.{get_or, length, take, drop, ltb, ◌==◌, if◌then◌else◌}

-- `==` on slices.
unfoldable pub bytes_eq : List ℕ → List ℕ → Bool
bytes_eq [] [] = true
bytes_eq [] (y ∷ ys) = false
bytes_eq (x ∷ xs) [] = false
bytes_eq (x ∷ xs) (y ∷ ys) = x == y && bytes_eq xs ys

-- `u32::to_le_bytes`
unfoldable pub to_le_bytes : ℕ → List ℕ
to_le_bytes n = n % 2 ^ 8 ∷ n / 2 ^ 8 % 2 ^ 8 ∷ n / 2 ^ 16 % 2 ^ 8 ∷ n / 2 ^ 24 % 2 ^ 8 ∷ []

abbrev pub next_breaks : ℕ → ℕ → ℕ
next_breaks num_breaks c = if c == 3 then num_breaks + 1 else 0

-- `while num_breaks < 3`; the fuel is the number of bytes that the loop may read.
unfoldable pub await_breaks : ℕ → ℕ → Process → Process
await_breaks zero num_breaks k = if ltb num_breaks 3 then halt out_of_fuel else k
await_breaks (suc fuel) num_breaks k =
    if ltb num_breaks 3
    then receive 1 (λ c. await_breaks fuel (next_breaks num_breaks (get_or c 0 0)) k)
    else k

-- `<[u8]>::chunks` for a chunk size that is not 0; each round takes a byte at least.
unfoldable pub chunks_loop : ℕ → ℕ → List ℕ → List (List ℕ)
chunks_loop fuel size [] = []
chunks_loop zero size (x ∷ xs) = []
chunks_loop (suc fuel) size (x ∷ xs) =
    take size (x ∷ xs) ∷ chunks_loop fuel size (drop size (x ∷ xs))

unfoldable pub chunks : ℕ → List ℕ → List (List ℕ)
chunks size bytes = chunks_loop (length bytes) size bytes

unfoldable pub await_ty : Process
await_ty =
    receive 4 λ ty. if bytes_eq ty (b'T' ∷ b'Y' ∷ b':' ∷ b')' ∷ []) then halt ok else halt err

unfoldable pub send_chunks : List (List ℕ) → Process
send_chunks [] = await_ty
send_chunks (chunk ∷ it) =
    send chunk
      (receive (length chunk) λ echo. if bytes_eq echo chunk then send_chunks it else halt err)

-- `chunks` panics on a chunk size of 0.
unfoldable pub send_all : ℕ → List ℕ → Process
send_all chunk_size kernel =
    if chunk_size == 0 then halt panic else send_chunks (chunks chunk_size kernel)

unfoldable pub send_size : ℕ → List ℕ → Process
send_size chunk_size kernel = send (to_le_bytes (length kernel % 2 ^ 32)) (
    receive 2
      λ ok'. if bytes_eq ok' (b'O' ∷ b'K' ∷ []) then send_all chunk_size kernel else halt err)

unfoldable pub send_kernel_inner : ℕ → ℕ → List ℕ → Process
send_kernel_inner fuel chunk_size kernel = await_breaks fuel 0 (send_size chunk_size kernel)
