-- ===== src/Console/Clear.antt =====
-- The clearing operations of the console, relative to the cursor.
use kados_ng.Base.{ℕ, suc, ◌-◌, ◌<◌, ◌≤◌, ◌≡◌, ◌≢◌, ◌⊎◌, inl, inr, arith, ap, ◌∙◌}
use kados_ng.Base.{none, ◌==◌, if◌then◌else◌, ==_of_ne}
use kados_ng.Mem.Outcome.{Outcome, panic}
use kados_ng.Console.Buffer.{
  FrameBuffer, Edit, clear_rows, clear_until_eol, clear_until_end, clear_from_bol,
  clear_until_beginning, clear_text,
}
use kados_ng.Console.Cells.{cell, IsGrid}
use kados_ng.Console.Loops.{Ends, InRow, InRows, Cleared, clear_cells-Cleared, clear_rows-Cleared}
use kados_ng.Console.Write.{IsConsole}

-- The cells from the cursor to the end of the buffer, in reading order.
abbrev pub FromCursor : ℕ → ℕ → ℕ → ℕ → Type 0
FromCursor x y r c = (r < 25) × (c < 80) × ((y < r) ⊎ ((r ≡ y) × (x ≤ c)))

clear_until_eol-Cleared :
    (fb : FrameBuffer)
    → IsConsole fb
    → Ends
        (Cleared (InRow (80 - fb.text_cursor_x) fb.text_cursor_y fb.text_cursor_x) fb)
        clear_until_eol
        fb
unfolding clear_until_eol
clear_until_eol-Cleared fb (g, x, y, l) =
    clear_cells-Cleared (80 - fb.text_cursor_x) fb.text_cursor_y fb.text_cursor_x fb g y
      (omega arith)

rows_below :
    (fb fb₁ : FrameBuffer)
    → Cleared (InRow (80 - fb.text_cursor_x) fb.text_cursor_y fb.text_cursor_x) fb fb₁
    → IsConsole fb
    → Ends
        (Cleared (InRows (25 - suc fb.text_cursor_y) (suc fb.text_cursor_y)) fb₁)
        (λ fb. clear_rows (25 - suc fb.text_cursor_y) (suc fb.text_cursor_y) fb)
        fb₁
rows_below fb fb₁ cl h =
    let (fb₂, e, c) =
      clear_rows-Cleared (25 - suc fb.text_cursor_y) (suc fb.text_cursor_y) fb₁ cl.0
        (omega (arith, h.2)) in
    (fb₂, ap (λ y. clear_rows (25 - suc y) (suc y) fb₁) cl.1.1 ∙ e, c)

-- From a console that satisfies its invariant, `clear_until_end` does not panic, clears exactly the
-- cells from the cursor to the end of the buffer, and leaves the cursor where it is.
pub clear_until_end-Cleared :
    (fb : FrameBuffer)
    → IsConsole fb
    → Ends (Cleared (FromCursor fb.text_cursor_x fb.text_cursor_y) fb) clear_until_end fb
unfolding clear_until_end
clear_until_end-Cleared fb h =
    let (fb₁, e, cl) = clear_until_eol-Cleared fb h in
    let (fb₂, e₂, cl₂) = rows_below fb fb₁ cl h in (fb₂, rw e e₂, both fb fb₁ fb₂ h cl cl₂)
  where
    both :
        (fb fb₁ fb₂ : FrameBuffer)
        → IsConsole fb
        → Cleared (InRow (80 - fb.text_cursor_x) fb.text_cursor_y fb.text_cursor_x) fb fb₁
        → Cleared (InRows (25 - suc fb.text_cursor_y) (suc fb.text_cursor_y)) fb₁ fb₂
        → Cleared (FromCursor fb.text_cursor_x fb.text_cursor_y) fb fb₂
    both fb fb₁ fb₂ h (g, k, ins, out) (g', k', inside, outside) =
        (g', (k'.0 ∙ k.0, k'.1 ∙ k.1, k'.2 ∙ k.2), there, apart)
      where
        there : (r c : ℕ) → FromCursor fb.text_cursor_x fb.text_cursor_y r c → cell fb₂ r c ≡ none
        there r c (hr, hc, inl i) = inside r c (i, omega arith, hc)
        there r c (hr, hc, inr (e, i)) =
            outside r c (λ j. absurd (omega (arith, j))) ∙ ins r c (e, i, omega arith)

        apart :
            (r c : ℕ)
            → ¬ FromCursor fb.text_cursor_x fb.text_cursor_y r c
            → cell fb₂ r c ≡ cell fb r c
        apart r c n =
            outside r c (λ (a, b, d). n (omega (arith, h.2), d, inl a))
            ∙ out r c (λ (e, a, b). n (omega (arith, h.2), omega (arith, h.1), inr (e, a)))

-- From any state with a grid of 25 rows of 80 cells, `clear_text` empties every cell.
pub clear_text-Cleared :
    (fb : FrameBuffer) → IsGrid fb.text_buf → Ends (Cleared (InRows 25 0) fb) clear_text fb
unfolding clear_text
clear_text-Cleared fb g = clear_rows-Cleared 25 0 fb g (omega arith)

-- What `clear_until_beginning` does off row 0.
abbrev pub BeforeCursor : ℕ → ℕ → ℕ → ℕ → Type 0
BeforeCursor x y r c = (c < 80) × ((suc r < y) ⊎ ((r ≡ y) × (c < x)))

clear_from_bol-Cleared :
    (fb : FrameBuffer)
    → IsConsole fb
    → Ends (Cleared (InRow fb.text_cursor_x fb.text_cursor_y 0) fb) clear_from_bol fb
unfolding clear_from_bol
clear_from_bol-Cleared fb (g, x, y, l) =
    clear_cells-Cleared fb.text_cursor_x fb.text_cursor_y 0 fb g y (omega arith)

above : Edit
above fb = if fb.text_cursor_y == 0 then (panic, fb) else clear_rows (fb.text_cursor_y - 1) 0 fb

rows_above :
    (fb fb₁ : FrameBuffer)
    → Cleared (InRow fb.text_cursor_x fb.text_cursor_y 0) fb fb₁
    → IsConsole fb
    → fb.text_cursor_y ≢ 0
    → Ends (Cleared (InRows (fb.text_cursor_y - 1) 0) fb₁) above fb₁
unfolding above
rows_above fb fb₁ cl h n =
    let (fb₂, e, c) = clear_rows-Cleared (fb.text_cursor_y - 1) 0 fb₁ cl.0 (omega (arith, h.2)) in
    (fb₂, ap test cl.1.1 ∙ rw (==_of_ne fb.text_cursor_y 0 n) e, c)
  where
    test : ℕ → Outcome (Unit {0}) × FrameBuffer
    test y = if y == 0 then (panic, fb₁) else clear_rows (y - 1) 0 fb₁

before_cursor :
    (fb fb₁ fb₂ : FrameBuffer)
    → Cleared (InRow fb.text_cursor_x fb.text_cursor_y 0) fb fb₁
    → Cleared (InRows (fb.text_cursor_y - 1) 0) fb₁ fb₂
    → IsConsole fb
    → Cleared (BeforeCursor fb.text_cursor_x fb.text_cursor_y) fb fb₂
before_cursor fb fb₁ fb₂ (g, k, ins, out) (g', k', inside, outside) h =
    (g', (k'.0 ∙ k.0, k'.1 ∙ k.1, k'.2 ∙ k.2), there, apart)
  where
    there : (r c : ℕ) → BeforeCursor fb.text_cursor_x fb.text_cursor_y r c → cell fb₂ r c ≡ none
    there r c (hc, inl i) = inside r c (omega arith, omega arith, hc)
    there r c (hc, inr (e, i)) =
        outside r c (λ j. absurd (omega (arith, j))) ∙ ins r c (e, omega arith, omega arith)

    apart :
        (r c : ℕ)
        → ¬ BeforeCursor fb.text_cursor_x fb.text_cursor_y r c
        → cell fb₂ r c ≡ cell fb r c
    apart r c n =
        outside r c (λ (a, b, d). n (d, inl (omega arith)))
        ∙ out r c (λ (e, a, b). n (omega (arith, h.1), inr (e, omega arith)))

panics : (fb : FrameBuffer) → fb.text_cursor_y ≡ 0 → (above fb).0 ≡ panic
unfolding above
panics fb z = ap test z
  where
    test : ℕ → Outcome (Unit {0})
    test y = (if y == 0 then (panic, fb) else clear_rows (fb.text_cursor_y - 1) 0 fb).0

-- From a console that satisfies its invariant, `clear_until_beginning` panics on row 0. On any
-- other row it does not, and it clears the cells before the cursor in the cursor's row and all rows
-- above but the one directly above the cursor.
pub clear_until_beginning-Cleared :
    (fb : FrameBuffer)
    → IsConsole fb
    → (fb.text_cursor_y ≡ 0 → (clear_until_beginning fb).0 ≡ panic)
      × (fb.text_cursor_y ≢ 0
          → Ends
              (Cleared (BeforeCursor fb.text_cursor_x fb.text_cursor_y) fb)
              clear_until_beginning
              fb)
unfolding clear_until_beginning above
clear_until_beginning-Cleared fb h =
    let (fb₁, e, cl) = clear_from_bol-Cleared fb h in
    (
      λ z. rw e (panics fb₁ (cl.1.1 ∙ z)),
      λ n.
          let (fb₂, e₂, c) = rows_above fb fb₁ cl h n in
          (fb₂, rw e e₂, before_cursor fb fb₁ fb₂ cl c h),
    )
