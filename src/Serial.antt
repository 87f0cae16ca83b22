-- ===== src/Serial.antt =====
-- The serial console: `GpioUart` of crates/kernel/src/arch/aarch64/serial.rs, on the registers of the
-- UART. A poll of the flags is answered by the next of the values that the device will show; `none` is
-- a loop that polls on when these are used up. The delays have no effect but time.
use kados_ng.Base.{
  ℕ, ◌+◌, ◌-◌, ◌*◌, ◌^◌, ◌%◌, bit_and, bit_or, ◌==◌, if◌then◌else◌, true, false, suc, length, All,
  ◌≡◌, refl, ap, ◌∙◌, arith,
}
use kados_ng.Base.{
  List, [], ◌∷◌, ◌++◌, Option, none, some, append_assoc, append-nil, Bool-cases, inl, inr,
}

abbrev pub peripheral_base : ℕ
peripheral_base = 0xFE00_0000

abbrev pub gpio_base : ℕ
gpio_base = peripheral_base + 0x20_0000

abbrev pub cm_base : ℕ
cm_base = peripheral_base + 0x10_0000

abbrev pub uart0_base : ℕ
uart0_base = peripheral_base + 0x20_1000

abbrev pub gpfsel1 : ℕ
gpfsel1 = gpio_base + 0x04

abbrev pub gppud : ℕ
gppud = gpio_base + 0x94

abbrev pub gppudclk0 : ℕ
gppudclk0 = gpio_base + 0x98

abbrev pub cm_uartctl : ℕ
cm_uartctl = cm_base + 0x1F68

abbrev pub cm_uartdiv : ℕ
cm_uartdiv = cm_base + 0x1F6C

abbrev pub dr : ℕ
dr = uart0_base + 0x00

abbrev pub ibrd : ℕ
ibrd = uart0_base + 0x24

abbrev pub fbrd : ℕ
fbrd = uart0_base + 0x28

abbrev pub lcrh : ℕ
lcrh = uart0_base + 0x2C

abbrev pub cr : ℕ
cr = uart0_base + 0x30

abbrev pub icr : ℕ
icr = uart0_base + 0x44

-- The values that polls of the flags will read, the bytes that have arrived, the writes in order, and
-- the pin selection.
pub record Uart : Type 0 where
  pub flags : List ℕ
  pub received : List ℕ
  pub writes : List (ℕ × ℕ)
  pub pin_select : ℕ

abbrev pub write_volatile : ℕ → ℕ → Uart → Uart
write_volatile a v u = record u { writes = u.writes ++ (a, v) ∷ [] }

-- Polls until the masked flags are 0.
unfoldable pub wait_until_clear : ℕ → List ℕ → Option (List ℕ)
wait_until_clear mask [] = none
wait_until_clear mask (fr ∷ frs) = elim (bit_and fr mask == 0) [
  | true ↦ some frs
  | false ↦ wait_until_clear mask frs
]

abbrev pub with_flags : Option (List ℕ) → (List ℕ → Option Uart) → Option Uart
with_flags none k = none
with_flags (some frs) k = k frs

unfoldable pub putchar : ℕ → Uart → Option Uart
putchar c u =
    with_flags (wait_until_clear (2 ^ 5) u.flags)
      λ frs. some (write_volatile dr c (record u { flags = frs }))

abbrev pub first_received : List ℕ → Uart → Option (ℕ × Uart)
first_received [] u = none
first_received (c ∷ cs) u = some (c % 2 ^ 8, record u { received = cs })

abbrev pub after_flags : Option (List ℕ) → Uart → Option (ℕ × Uart)
after_flags none u = none
after_flags (some frs) u = first_received u.received (record u { flags = frs })

unfoldable pub getchar : Uart → Option (ℕ × Uart)
getchar u = after_flags (wait_until_clear 0x10 u.flags) u

abbrev pub try_with : List ℕ → Uart → Option (Option ℕ × Uart)
try_with [] u = none
try_with (fr ∷ frs) u =
    let u' = record u { flags = frs } in
    if bit_and fr 0x10 == 0
    then elim u.received [
      | [] ↦ none
      | c ∷ cs ↦ some (some (c % 2 ^ 8), record u' { received = cs })
    ]
    else some (none, u')

unfoldable pub try_getchar : Uart → Option (Option ℕ × Uart)
try_getchar u = try_with u.flags u

unfoldable pub init : Uart → Option Uart
init u =
    let clocked = write_volatile cm_uartctl 0x0000_2160 (write_volatile cm_uartdiv 3 u) in
    let cleared =
      bit_and clocked.pin_select (2 ^ 32 - 1 - bit_or (0b111 * 2 ^ 12) (0b111 * 2 ^ 15)) in
    let sel = bit_or cleared (bit_or (0b100 * 2 ^ 12) (0b100 * 2 ^ 15)) in
    let muxed = write_volatile gpfsel1 sel (record clocked { pin_select = sel }) in
    let pulled =
      write_volatile gppudclk0 (bit_or (2 ^ 14) (2 ^ 15)) (write_volatile gppud 0 muxed) in
    let off = write_volatile cr 0 (write_volatile gppudclk0 0 pulled) in
    with_flags (wait_until_clear (2 ^ 3) off.flags) λ frs.
      (let idle = write_volatile icr 0x7FF (record off { flags = frs }) in
        let timed = write_volatile fbrd 16 (write_volatile ibrd 3 idle) in
        let framed = write_volatile lcrh (bit_or (2 ^ 4) (3 * 2 ^ 5)) timed in
        some (write_volatile cr (bit_or (bit_or (2 ^ 9) (2 ^ 8)) 1) framed))

abbrev pub and_then : Option Uart → (Uart → Option Uart) → Option Uart
and_then none k = none
and_then (some u) k = k u

-- The bytes of the string in order, a line feed after a carriage return.
unfoldable pub write_str : List ℕ → Uart → Option Uart
write_str [] u = some u
write_str (b ∷ bs) u =
    and_then (if b == b'\n' then putchar b'\r' u else some u)
      λ u'. and_then (putchar b u') λ u''. write_str bs u''

-- The string as it leaves the UART.
abbrev pub expand : List ℕ → List ℕ
expand [] = []
expand (b ∷ bs) = if b == b'\n' then b'\r' ∷ b ∷ expand bs else b ∷ expand bs

abbrev pub to_dr : List ℕ → List (ℕ × ℕ)
to_dr [] = []
to_dr (c ∷ cs) = (dr, c) ∷ to_dr cs

-- A poll that shows that the transmitter has room.
abbrev pub HasSpace : ℕ → Type 0
HasSpace fr = bit_and fr (2 ^ 5) ≡ 0

-- What has been sent and which polls are left.
abbrev sent : List ℕ → List ℕ → Uart → Uart
sent cs frs u = record u { flags = frs; writes = u.writes ++ to_dr cs }

wait_space : (fr : ℕ) (frs : List ℕ) → HasSpace fr → wait_until_clear (2 ^ 5) (fr ∷ frs) ≡ some frs
unfolding wait_until_clear
wait_space fr frs h = rw (h, wait_until_clear) refl

putchar_sends :
    (c fr : ℕ) (frs : List ℕ) (u : Uart)
    → HasSpace fr
    → putchar c (record u { flags = fr ∷ frs }) ≡ some (sent (c ∷ []) frs u)
unfolding putchar
putchar_sends c fr frs u h = rw (wait_space fr frs h) refl

sent-sent :
    (cs ds frs frs' : List ℕ) (u : Uart) → sent ds frs' (sent cs frs u) ≡ sent (cs ++ ds) frs' u
sent-sent cs ds frs frs' u =
    ap (λ w. record u { flags = frs'; writes = w })
      (append_assoc u.writes (to_dr cs) (to_dr ds) ∙ ap (λ t. u.writes ++ t) (to_dr-append cs ds))
  where
    to_dr-append : (cs ds : List ℕ) → to_dr cs ++ to_dr ds ≡ to_dr (cs ++ ds)
    to_dr-append [] ds = refl
    to_dr-append (c ∷ cs) ds = ap (λ t. (dr, c) ∷ t) (to_dr-append cs ds)

-- While the transmitter has room at each poll, `write_str` sends the bytes of the string in order,
-- each line feed after a carriage return, takes one poll for each byte sent, and writes nothing else.
pub write_str_sends :
    (bs ready later : List ℕ) (u : Uart)
    → All HasSpace ready
    → length ready ≡ length (expand bs)
    → write_str bs (record u { flags = ready ++ later }) ≡ some (sent (expand bs) later u)
unfolding write_str
write_str_sends [] [] later u h e = rw (append-nil u.writes) refl
write_str_sends [] (f ∷ fs) later u h e = absurd (omega arith)
write_str_sends (b ∷ bs) ready later u h e = elim (Bool-cases (b == b'\n')) [
  | inl feed ↦ rw feed (after_feed (write_str_sends bs) ready h (e ∙ rw feed refl))
  | inr other ↦ rw other (alone (write_str_sends bs) ready h (e ∙ rw other refl))
]
  where
    after_feed :
        ((fs later : List ℕ) (u : Uart)
          → All HasSpace fs
          → length fs ≡ length (expand bs)
          → write_str bs (record u { flags = fs ++ later }) ≡ some (sent (expand bs) later u))
        → (ready : List ℕ) → All HasSpace ready
        → length ready ≡ suc (suc (length (expand bs)))
        → and_then
            (putchar b'\r' (record u { flags = ready ++ later }))
            (λ u'. and_then (putchar b u') λ u''. write_str bs u'')
          ≡ some (sent (b'\r' ∷ b ∷ expand bs) later u)
    after_feed ih [] h e = absurd (omega arith)
    after_feed ih (f ∷ []) h e = absurd (omega arith)
    after_feed ih (f ∷ g ∷ fs) (hf, (hg, hs)) e =
        rw
          (
            putchar_sends b'\r' f (g ∷ (fs ++ later)) u hf,
            putchar_sends b g (fs ++ later) (sent (b'\r' ∷ []) (g ∷ (fs ++ later)) u) hg,
            sent-sent (b'\r' ∷ []) (b ∷ []) (g ∷ (fs ++ later)) (fs ++ later) u,
          )
          (ih fs later (sent (b'\r' ∷ b ∷ []) (fs ++ later) u) hs (omega arith)
            ∙ ap some (sent-sent (b'\r' ∷ b ∷ []) (expand bs) (fs ++ later) later u))

    alone :
        ((fs later : List ℕ) (u : Uart)
          → All HasSpace fs
          → length fs ≡ length (expand bs)
          → write_str bs (record u { flags = fs ++ later }) ≡ some (sent (expand bs) later u))
        → (ready : List ℕ) → All HasSpace ready
        → length ready ≡ suc (length (expand bs))
        → and_then (putchar b (record u { flags = ready ++ later })) (λ u''. write_str bs u'')
          ≡ some (sent (b ∷ expand bs) later u)
    alone ih [] h e = absurd (omega arith)
    alone ih (f ∷ fs) (hf, hs) e = rw (putchar_sends b f (fs ++ later) u hf) (
        ih fs later (sent (b ∷ []) (fs ++ later) u) hs (omega arith)
        ∙ ap some (sent-sent (b ∷ []) (expand bs) (fs ++ later) later u))
