-- ===== src/Console/Line.antt =====
-- A line of plain characters that fits in the row is stored as it is.
use kados_ng.Base.{
  ℕ, suc, zero, ◌+◌, ◌<◌, ◌≤◌, ◌≡◌, ◌≢◌, ◌⊎◌, inl, inr, refl, arith, sym, ap, ap₂, ◌∙◌,
}
use kados_ng.Base.{some, List, [], ◌∷◌, ==_of_ne, length, All, get_elem?}
use mathlib.Core.Option.{some-injective}
use kados_ng.Mem.Outcome.{ok}
use kados_ng.Console.Buffer.{FrameBuffer, Cell, write_byte, write_string}
use kados_ng.Console.Cells.{cell}
use kados_ng.Console.Loops.{Ends}
use kados_ng.Console.Write.{IsConsole, Placed, write_char-Placed}

-- A byte that is neither a backspace nor a line feed nor a carriage return.
abbrev pub IsPlain : ℕ → Type 0
IsPlain byte = (byte ≢ 8) × (byte ≢ 10) × (byte ≢ 13)

plain_byte :
    (byte : ℕ) (fb : FrameBuffer)
    → IsConsole fb
    → IsPlain byte
    → fb.text_cursor_x < 79
    → Ends (Placed byte fb) (write_byte byte) fb
unfolding write_byte
plain_byte byte fb h (a, b, c) x =
    rw (==_of_ne byte 8 a, ==_of_ne byte 10 b, ==_of_ne byte 13 c) (write_char-Placed byte fb h x)

-- The bytes stand in the cursor's row from the cursor on, in the colour that is set, and every
-- other cell is as it was.
abbrev pub Line : List ℕ → FrameBuffer → FrameBuffer → Type 0
Line bytes fb fb' =
    IsConsole fb'
    × (fb'.text_cursor_x ≡ fb.text_cursor_x + length bytes)
    × (fb'.text_cursor_y ≡ fb.text_cursor_y)
    × (fb'.text_fgcolor ≡ fb.text_fgcolor)
    × ((i byte : ℕ)
        → get_elem? bytes i ≡ some byte
        → cell fb' fb.text_cursor_y (fb.text_cursor_x + i)
          ≡ some record { char = byte; fg = fb.text_fgcolor })
    × ((r c : ℕ)
        → (fb.text_cursor_y ≢ r) ⊎ ((c < fb.text_cursor_x) ⊎ (fb.text_cursor_x + length bytes ≤ c))
        → cell fb' r c ≡ cell fb r c)

first_byte :
    (byte : ℕ) (bytes : List ℕ) (fb fb₁ : FrameBuffer)
    → Placed byte fb fb₁
    → write_byte byte fb ≡ (ok tt, fb₁)
    → Ends (Line bytes fb₁) (write_string bytes) fb₁
    → Ends (Line (byte ∷ bytes) fb) (write_string (byte ∷ bytes)) fb
unfolding write_string
first_byte byte bytes fb fb₁ p e (fb₂, e₂, l) =
    (fb₂, rw e e₂, (l.0, omega (arith, l.1, p.1), l.2 ∙ p.2, l.3 ∙ p.3, stored, kept))
  where
    x+0 : fb.text_cursor_x + 0 ≡ fb.text_cursor_x
    x+0 = omega arith

    coloured : ℕ → ℕ → Cell
    coloured b f = some record { char = b; fg = f }

    character : ℕ → Cell
    character b = coloured b fb.text_fgcolor

    stored :
        (i b : ℕ)
        → get_elem? (byte ∷ bytes) i ≡ some b
        → cell fb₂ fb.text_cursor_y (fb.text_cursor_x + i)
          ≡ some record { char = b; fg = fb.text_fgcolor }
    stored zero b h =
        l.5 fb.text_cursor_y (fb.text_cursor_x + 0) (inr (inl (omega (arith, p.1))))
        ∙ ap (λ x. cell fb₁ fb.text_cursor_y x) x+0
        ∙ p.4
        ∙ ap character (some-injective byte b h)
    stored (suc j) b h =
        ap₂ (λ r c. cell fb₂ r c) (sym p.2) (omega (arith, p.1)) ∙ l.4 j b h ∙ ap (coloured b) p.3

    later :
        (r c : ℕ)
        → (fb.text_cursor_y ≢ r)
          ⊎ ((c < fb.text_cursor_x) ⊎ (fb.text_cursor_x + length (byte ∷ bytes) ≤ c))
        → (fb₁.text_cursor_y ≢ r)
          ⊎ ((c < fb₁.text_cursor_x) ⊎ (fb₁.text_cursor_x + length bytes ≤ c))
    later r c (inl n) = inl (λ q. n (sym p.2 ∙ q))
    later r c (inr h) = inr (omega (arith, p.1, h))

    now :
        (r c : ℕ)
        → (fb.text_cursor_y ≢ r)
          ⊎ ((c < fb.text_cursor_x) ⊎ (fb.text_cursor_x + length (byte ∷ bytes) ≤ c))
        → (fb.text_cursor_y ≢ r) ⊎ (fb.text_cursor_x ≢ c)
    now r c (inl n) = inl n
    now r c (inr h) = inr (omega (arith, h))

    kept :
        (r c : ℕ)
        → (fb.text_cursor_y ≢ r)
          ⊎ ((c < fb.text_cursor_x) ⊎ (fb.text_cursor_x + length (byte ∷ bytes) ≤ c))
        → cell fb₂ r c ≡ cell fb r c
    kept r c h = l.5 r c (later r c h) ∙ p.5 r c (now r c h)

-- Characters that fit in the cursor's row, with no backspace, line feed or carriage return among
-- them, are stored there one after the other in the colour that is set: `write_string` does not
-- panic, moves the cursor behind them, and changes no other cell.
pub write_string-Line :
    (bytes : List ℕ) (fb : FrameBuffer)
    → IsConsole fb
    → All IsPlain bytes
    → fb.text_cursor_x + length bytes ≤ 79
    → Ends (Line bytes fb) (write_string bytes) fb
unfolding write_string
write_string-Line [] fb h p x =
    (fb, refl, (h, omega arith, refl, refl, λ i byte e. absurd (none_ne i byte e), λ r c k. refl))
  where
    none_ne : (i byte : ℕ) → get_elem? {A = ℕ} [] i ≡ some byte → ⊥
    none_ne i byte e = ground arith
write_string-Line (byte ∷ bytes) fb h (p, ps) x =
    let (fb₁, e, pl) = plain_byte byte fb h p (omega arith) in
    first_byte byte bytes fb fb₁ pl e (write_string-Line bytes fb₁ pl.0 ps (omega (arith, pl.1)))
