-- ===== src/Loader/Tests.antt =====
-- Concrete transfers.
use mathlib.Core.WellFounded.{Acc}
use kados_ng.Loader.Process.{System, Steps, here, IsFinal, halt, ok, act, step}
use kados_ng.Loader.Client.{
  send_kernel_inner, to_le_bytes, await_breaks, send_size, send_all, send_chunks,
}
use kados_ng.Loader.Client.{chunks, chunks_loop, bytes_eq, await_ty}
use kados_ng.Loader.Phases.{Acts, before, rest, party}
use kados_ng.Loader.Schedule.{After}
use kados_ng.Loader.Transfer.{power_cycled, IsTransferred, transfer_total}
use kados_ng.Loader.Server.{
  Server, asleep, reading, listening, Reach, IsDeadlocked, reaches_deadlock,
}
use kados_ng.Loader.Symbols.{find_symbol, maybe_handle_symbol_request, find_entry, strip_prefix}
use kados_ng.Base.{Option, none, some}
use kados_ng.Loader.Echo.{send_kernel_inner_echoed}
use kados_ng.Base.{ℕ, List, [], ◌∷◌, ◌++◌, ◌≡◌, refl, ◌%◌, ◌^◌, length, arith}

abbrev three_bytes : List ℕ
three_bytes = 0x11 ∷ 0x22 ∷ 0x33 ∷ []

abbrev cold : ℕ → ℕ
cold _ = 0

abbrev start : System
start = power_cycled 5 2 three_bytes (3 ∷ 0 ∷ []) cold cold

transfer_total_example :
    Acc After start
    × (t : System) × (left : ℕ) × Steps left start t
    × IsFinal t
    × IsTransferred three_bytes cold t
transfer_total_example =
    transfer_total 5 2 three_bytes (3 ∷ 0 ∷ []) cold cold 0 start (omega arith) (omega arith)
      (omega arith, (omega arith, refl)) (omega arith) here

abbrev seven : List ℕ
seven = 7 ∷ []

abbrev device_bytes : List ℕ
device_bytes = 3 ∷ 3 ∷ 3 ∷ b'O' ∷ b'K' ∷ 7 ∷ b'T' ∷ b'Y' ∷ b':' ∷ b')' ∷ []

sends_seven :
    Acts
      (party (send_kernel_inner 4 1 seven) device_bytes cold cold)
      (party (halt ok) [] cold cold)
      (1 ∷ 0 ∷ 0 ∷ 0 ∷ 7 ∷ [])
unfolding send_kernel_inner to_le_bytes await_breaks send_size send_all send_chunks chunks
    chunks_loop bytes_eq await_ty act step
sends_seven = before refl (
    before refl (
      before refl
        (before refl (before refl (before refl (before refl (before refl (rest refl))))))))

send_kernel_inner_echoed_example :
    (noise : List ℕ) × (device_bytes
      ≡ noise ++ (b'O' ∷ b'K' ∷ (seven ++ (b'T' ∷ b'Y' ∷ b':' ∷ b')' ∷ []))))
    × ((1 ∷ 0 ∷ 0 ∷ 0 ∷ 7 ∷ []) ≡ to_le_bytes (length seven % 2 ^ 32) ++ seven)
send_kernel_inner_echoed_example =
    send_kernel_inner_echoed 4 1 seven device_bytes cold cold (party (halt ok) [] cold cold)
      (1 ∷ 0 ∷ 0 ∷ 0 ∷ 7 ∷ []) sends_seven refl

abbrev two_clients : Server
two_clients = record {
  monitor_clients = 40001 ∷ 40002 ∷ [];
  disconnected_clients = [];
  reap = asleep;
  serial = reading;
  client_tasks = 40001 ∷ 40002 ∷ [];
  sent = [];
  accepting = listening;
}

reaches_deadlock_example :
    (t : Server) × Reach two_clients t
    × IsDeadlocked t
    × (t.monitor_clients ≡ two_clients.monitor_clients)
reaches_deadlock_example = reaches_deadlock two_clients 40001 (40002 ∷ []) refl refl refl

abbrev always_hundred : List ℕ → Option ℕ
always_hundred _ = some 100

answers_main :
    maybe_handle_symbol_request always_hundred
      (some (
        some (
          some (
            record { value = 16; size = 8; name = none }
            ∷ record { value = 96; size = 8; name = some (b'm' ∷ []) }
            ∷ []))))
      (b'[' ∷ b's' ∷ b'y' ∷ b'm' ∷ b'?' ∷ b']' ∷ b'1' ∷ [])
    ≡ some (b'm' ∷ b'\n' ∷ [])
unfolding maybe_handle_symbol_request find_symbol find_entry strip_prefix
answers_main = refl
