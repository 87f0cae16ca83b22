-- ===== src/Loader/Chainloader.antt =====
-- crates/chainloader/src/main.rs: `recv`, which receives a kernel over the serial line and jumps to it.
-- `putchar` and `getchar` are a byte sent and received, their polling of the UART's flags being the
-- line's waiting; `delay` has no effect but time.
use kados_ng.Loader.Process.{Process, send, receive, store, read32, write32, halt, jump}
use kados_ng.Base.{ℕ, zero, suc, ◌+◌, ◌-◌, ◌*◌, ◌^◌, ◌%◌, bit_and, bit_or, [], ◌∷◌, get_or}

abbrev pub kernel_load_addr : ℕ
kernel_load_addr = 0x80000

abbrev peripheral_base : ℕ
peripheral_base = 0xFE00_0000

abbrev gpio_base : ℕ
gpio_base = peripheral_base + 0x20_0000

abbrev uart0_base : ℕ
uart0_base = peripheral_base + 0x20_1000

abbrev pub gpfsel1 : ℕ
gpfsel1 = gpio_base + 0x04

abbrev pub gppud : ℕ
gppud = gpio_base + 0x94

abbrev pub gppudclk0 : ℕ
gppudclk0 = gpio_base + 0x98

abbrev pub uart0_ibrd : ℕ
uart0_ibrd = uart0_base + 0x24

abbrev pub uart0_fbrd : ℕ
uart0_fbrd = uart0_base + 0x28

abbrev pub uart0_lcrh : ℕ
uart0_lcrh = uart0_base + 0x2C

abbrev pub uart0_cr : ℕ
uart0_cr = uart0_base + 0x30

abbrev pub uart0_icr : ℕ
uart0_icr = uart0_base + 0x44

abbrev pub aux_enable : ℕ
aux_enable = peripheral_base + 0x00215004

abbrev pub putchar : ℕ → Process → Process
putchar c k = send (c ∷ []) k

abbrev pub getchar : (ℕ → Process) → Process
getchar k = receive 1 (λ bytes. k (get_or bytes 0 0))

-- `r &= !((7 << 12) | (7 << 15)); r |= (4 << 12) | (4 << 15)` on a `u32`.
unfoldable pub select_uart_pins : ℕ → ℕ
select_uart_pins r =
    bit_or (bit_and r (2 ^ 32 - 1 - bit_or (7 * 2 ^ 12) (7 * 2 ^ 15)))
      (bit_or (4 * 2 ^ 12) (4 * 2 ^ 15))

unfoldable pub set_up_uart : Process → Process
set_up_uart k = write32 uart0_cr 0 (
    write32 aux_enable 0 (
      read32 gpfsel1 λ r. write32 gpfsel1 (select_uart_pins r) (
        write32 gppud 0 (
          write32 gppudclk0 (bit_or (2 ^ 14) (2 ^ 15)) (
            write32 gppudclk0 0 (
              write32 uart0_icr 0x7ff (
                write32 uart0_ibrd 3 (
                  write32 uart0_fbrd 16
                    (write32 uart0_lcrh (0x3 * 2 ^ 5) (write32 uart0_cr 0x301 k))))))))))

-- `kernel_len |= (getchar() as u32) << shift`
abbrev pub add_byte : ℕ → ℕ → ℕ → ℕ
add_byte kernel_len c shift = bit_or kernel_len (c * 2 ^ shift % 2 ^ 32)

unfoldable pub kernel_len_of : ℕ → ℕ → ℕ → ℕ → ℕ
kernel_len_of b0 b1 b2 b3 = add_byte (add_byte (add_byte (add_byte 0 b0 0) b1 8) b2 16) b3 24

unfoldable pub finish : Process
finish = putchar b'T' (putchar b'Y' (putchar b':' (putchar b')' (halt (jump kernel_load_addr)))))

-- The loop with `rounds` bytes still to come, the next of them at `KERNEL_LOAD_ADDR + i`.
unfoldable pub load_kernel : ℕ → ℕ → Process
load_kernel zero i = finish
load_kernel (suc rounds) i =
    getchar λ c. store (kernel_load_addr + i) c (putchar c (load_kernel rounds (i + 1)))

unfoldable pub receive_kernel : Process
receive_kernel = getchar λ b0. getchar λ b1.
    getchar
      λ b2. getchar λ b3. putchar b'O' (putchar b'K' (load_kernel (kernel_len_of b0 b1 b2 b3) 0))

unfoldable pub recv : Process
recv = set_up_uart (putchar 3 (putchar 3 (putchar 3 receive_kernel)))
