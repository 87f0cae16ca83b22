-- ===== src/Loader/Device.antt =====
-- How `recv` gets from one exchange with the client to the next.
use native.Mathlib.Nat.{zero-add, add-zero}
use kados_ng.Loader.Process.{act, step, update, jump, halt}
use kados_ng.Loader.Chainloader.{recv, receive_kernel, load_kernel, finish, set_up_uart}
use kados_ng.Loader.Chainloader.{kernel_len_of, kernel_load_addr, select_uart_pins, gpfsel1, gppud}
use kados_ng.Loader.Chainloader.{
  gppudclk0, uart0_cr, uart0_icr, uart0_ibrd, uart0_fbrd, uart0_lcrh, aux_enable,
}
use kados_ng.Loader.Phases.{Acts, rest, before, party, Acts-receive}
use kados_ng.Base.{ℕ, zero, suc, ◌+◌, ◌*◌, ◌^◌, ◌<◌, ◌≤◌, ◌≡◌, refl, arith, bit_or}
use kados_ng.Base.{List, [], ◌∷◌, ◌++◌, length, ◌∙◌, ==_of_ne, some, get_elem?}

-- The registers once the UART is set up.
abbrev pub uart_ready : (ℕ → ℕ) → ℕ → ℕ
uart_ready r0 =
    let r1 = update (update r0 uart0_cr 0) aux_enable 0 in
    let r2 = update r1 gpfsel1 (select_uart_pins (r1 gpfsel1)) in
    let r3 = update (update r2 gppud 0) gppudclk0 (bit_or (2 ^ 14) (2 ^ 15)) in
    let r4 = update (update (update r3 gppudclk0 0) uart0_icr 0x7ff) uart0_ibrd 3 in
    update (update (update r4 uart0_fbrd 16) uart0_lcrh (0x3 * 2 ^ 5)) uart0_cr 0x301

pub recv-Acts :
    (bs : List ℕ) (m r : ℕ → ℕ)
    → Acts (party recv bs m r) (party receive_kernel bs m (uart_ready r)) (3 ∷ 3 ∷ 3 ∷ [])
unfolding recv set_up_uart step act
recv-Acts bs m r = before refl (
    before refl (
      before refl (
        before refl (
          before refl (
            before refl (
              before refl (
                before refl (
                  before refl (
                    before refl (
                      before refl (
                        before refl (before refl (before refl (before refl (rest refl)))))))))))))))

pub receive_kernel-Acts :
    (b0 b1 b2 b3 : ℕ) (bs : List ℕ) (m r : ℕ → ℕ)
    → Acts
        (party receive_kernel (b0 ∷ b1 ∷ b2 ∷ b3 ∷ bs) m r)
        (party (load_kernel (kernel_len_of b0 b1 b2 b3) 0) bs m r)
        (b'O' ∷ b'K' ∷ [])
unfolding receive_kernel step act
receive_kernel-Acts b0 b1 b2 b3 bs m r = Acts-receive _ (b0 ∷ []) (
    Acts-receive _ (b1 ∷ [])
      (Acts-receive _ (b2 ∷ []) (Acts-receive _ (b3 ∷ []) (before refl (before refl (rest refl))))))

-- Memory with the bytes stored from `KERNEL_LOAD_ADDR + i` on.
abbrev pub loaded : ℕ → List ℕ → (ℕ → ℕ) → ℕ → ℕ
loaded i [] m = m
loaded i (x ∷ xs) m = loaded (i + 1) xs (update m (kernel_load_addr + i) x)

pub load_kernel-Acts :
    (xs : List ℕ) (n k i j : ℕ) (m r : ℕ → ℕ)
    → n ≡ length xs + k
    → j ≡ i + length xs
    → Acts (party (load_kernel n i) xs m r) (party (load_kernel k j) [] (loaded i xs m) r) xs
unfolding load_kernel step act
load_kernel-Acts [] n k i j m r hn hj = rest (rw (hn, hj, add-zero, zero-add) refl)
load_kernel-Acts (x ∷ xs) zero k i j m r hn hj = absurd (omega arith)
load_kernel-Acts (x ∷ xs) (suc n) k i j m r hn hj = Acts-receive _ (x ∷ []) (
    before refl (
      before refl (
        load_kernel-Acts xs n k (i + 1) j (update m (kernel_load_addr + i) x) r (omega arith)
          (omega arith))))

pub finish-Acts :
    (i : ℕ) (m r : ℕ → ℕ)
    → Acts
        (party (load_kernel 0 i) [] m r)
        (party (halt (jump kernel_load_addr)) [] m r)
        (b'T' ∷ b'Y' ∷ b':' ∷ b')' ∷ [])
unfolding load_kernel finish step act
finish-Acts i m r = before refl (before refl (before refl (before refl (rest refl))))

pub loaded-append :
    (xs ys : List ℕ) (i j : ℕ) (m : ℕ → ℕ)
    → j ≡ i + length xs
    → loaded i (xs ++ ys) m ≡ loaded j ys (loaded i xs m)
loaded-append [] ys i j m h = rw (h, add-zero) refl
loaded-append (x ∷ xs) ys i j m h =
    loaded-append xs ys (i + 1) j (update m (kernel_load_addr + i) x) (omega arith)

pub loaded_below :
    (xs : List ℕ) (i a : ℕ) (m : ℕ → ℕ) → a < kernel_load_addr + i → loaded i xs m a ≡ m a
loaded_below [] i a m h = refl
loaded_below (x ∷ xs) i a m h =
    loaded_below xs (i + 1) a (update m (kernel_load_addr + i) x) (omega arith)
    ∙ rw (==_of_ne (kernel_load_addr + i) a (omega arith)) refl

pub loaded_above :
    (xs : List ℕ) (i a : ℕ) (m : ℕ → ℕ)
    → kernel_load_addr + i + length xs ≤ a
    → loaded i xs m a ≡ m a
loaded_above [] i a m h = refl
loaded_above (x ∷ xs) i a m h =
    loaded_above xs (i + 1) a (update m (kernel_load_addr + i) x) (omega arith)
    ∙ rw (==_of_ne (kernel_load_addr + i) a (omega arith)) refl

pub loaded_at :
    (xs : List ℕ) (i k x a : ℕ) (m : ℕ → ℕ)
    → a ≡ kernel_load_addr + i + k
    → get_elem? xs k ≡ some x
    → loaded i xs m a ≡ x
loaded_at [] i k x a m h e = cc
loaded_at (y ∷ ys) i zero x a m h e =
    loaded_below ys (i + 1) a (update m (kernel_load_addr + i) y) (omega arith) ∙ ground (arith)
loaded_at (y ∷ ys) i (suc k) x a m h e =
    loaded_at ys (i + 1) k x a (update m (kernel_load_addr + i) y) (omega arith) e
