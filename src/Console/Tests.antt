-- ===== src/Console/Tests.antt =====
-- The console after `init`.
use kados_ng.Base.{ℕ, ◌+◌, ◌≡◌, ◌≢◌, arith, [], ◌∷◌, ◌<◌, ◌≤◌, none}
use kados_ng.Mem.Outcome.{panic}
use kados_ng.Console.Buffer.{
  FrameBuffer, init, write_byte, write_string, scroll, clear_until_end, clear_until_beginning,
}
use kados_ng.Base.{◌/◌, List, length, refl}
use kados_ng.Console.Cells.{cell}
use kados_ng.Console.Buffer.{Color}
use kados_ng.Console.Pixels.{ℤ, Pixel}
use kados_ng.Console.Draw.{IsScreen}
use kados_ng.Console.Shown.{Redrawn, write_fmt-Shows}
use kados_ng.Console.Loops.{Ends, Cleared}
use kados_ng.Console.Scroll.{Scrolled, scroll-Scrolled}
use kados_ng.Console.Write.{IsConsole, init-IsConsole, write_byte-IsConsole, write_string-IsConsole}
use kados_ng.Console.Line.{IsPlain, Line, write_string-Line}
use kados_ng.Console.Clear.{
  FromCursor, BeforeCursor, clear_until_end-Cleared, clear_until_beginning-Cleared,
}

abbrev console : FrameBuffer
console = init 16 2 2

console-IsConsole : IsConsole console
console-IsConsole = (init-IsConsole 16 2 2).0

init-IsConsole_example :
    IsConsole (init 16 2 2) × ((r c : ℕ) → r < 25 → c < 80 → cell (init 16 2 2) r c ≡ none)
init-IsConsole_example = init-IsConsole 16 2 2

write_byte-IsConsole_example : Ends IsConsole (write_byte 10) console
write_byte-IsConsole_example = write_byte-IsConsole 10 console console-IsConsole

write_string-IsConsole_example : Ends IsConsole (write_string (104 ∷ 10 ∷ 8 ∷ 13 ∷ [])) console
write_string-IsConsole_example =
    write_string-IsConsole (104 ∷ 10 ∷ 8 ∷ 13 ∷ []) console console-IsConsole

at_start : console.text_cursor_x + 2 ≤ 79
unfolding init
at_start = omega arith

IsPlain-h : IsPlain 104
IsPlain-h = (λ e. omega (arith, e), λ e. omega (arith, e), λ e. omega (arith, e))

IsPlain-i : IsPlain 105
IsPlain-i = (λ e. omega (arith, e), λ e. omega (arith, e), λ e. omega (arith, e))

write_string-Line_example :
    Ends (Line (104 ∷ 105 ∷ []) console) (write_string (104 ∷ 105 ∷ [])) console
write_string-Line_example =
    write_string-Line (104 ∷ 105 ∷ []) console console-IsConsole (IsPlain-h, (IsPlain-i, tt))
      at_start

scroll-Scrolled_example : Ends (Scrolled console) scroll console
scroll-Scrolled_example = scroll-Scrolled console console-IsConsole.0

clear_until_end-Cleared_example :
    Ends
      (Cleared (FromCursor console.text_cursor_x console.text_cursor_y) console)
      clear_until_end
      console
clear_until_end-Cleared_example = clear_until_end-Cleared console console-IsConsole

clear_until_beginning-Cleared_example :
    (console.text_cursor_y ≡ 0 → (clear_until_beginning console).0 ≡ panic)
    × (console.text_cursor_y ≢ 0
        → Ends
            (Cleared (BeforeCursor console.text_cursor_x console.text_cursor_y) console)
            clear_until_beginning
            console)
clear_until_beginning-Cleared_example = clear_until_beginning-Cleared console console-IsConsole

-- A font whose characters are one pixel, and a screen of two by two pixels.
abbrev dot : ℕ → ℤ → ℤ → Color → List Pixel
dot char x y color = record { x = x; y = y; color = color } ∷ []

console-IsScreen : IsScreen console
unfolding init
console-IsScreen = (omega arith, omega arith, omega arith)

four_words : length console.back_buffer ≡ 16 / 4
unfolding init
four_words = refl

write_fmt-Shows_example : Redrawn dot 1 1 16 (104 ∷ 10 ∷ 105 ∷ []) console (λ i. 7)
write_fmt-Shows_example =
    write_fmt-Shows dot 1 1 16 (104 ∷ 10 ∷ 105 ∷ []) console (λ i. 7) console-IsConsole
      console-IsScreen four_words
