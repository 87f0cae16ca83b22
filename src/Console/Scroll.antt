-- ===== src/Console/Scroll.antt =====
-- The scrolling loops of `new_line`: every row takes the cells of the row below it.
use kados_ng.Base.{ℕ, suc, zero, ◌+◌, ◌-◌, ◌<◌, ◌≤◌, ◌≡◌, ◌≢◌, ◌⊎◌, inl, inr, refl, arith, sym, ◌∙◌}
use kados_ng.Base.{none, ℕ-cases}
use kados_ng.Mem.Outcome.{ok}
use kados_ng.Console.Buffer.{FrameBuffer, Cell, copy_up, scroll_rows, scroll}
use kados_ng.Console.Cells.{
  cell, IsGrid, Frame, put, set_cell-put, get_cell-cell, put-IsGrid, cell-put_self, cell-put_ne,
}
use kados_ng.Console.Loops.{Ends, InRow, InRows, clear_row-Cleared}

-- The cells of a region, moved up by one row; the others stay.
abbrev pub Moved : (ℕ → ℕ → Type 0) → FrameBuffer → FrameBuffer → Type 0
Moved In fb fb' =
    IsGrid fb'.text_buf
    × Frame fb fb'
    × ((r c : ℕ) → In r c → cell fb' r c ≡ cell fb (suc r) c)
    × ((r c : ℕ) → ¬ In r c → cell fb' r c ≡ cell fb r c)

first_copy :
    (n row col : ℕ) (fb : FrameBuffer)
    → IsGrid fb.text_buf
    → row < 24
    → col + suc n ≤ 80
    → Ends
        (Moved (InRow n row (suc col)) (put fb row col (cell fb (suc row) col)))
        (copy_up n (suc row) (suc col))
        (put fb row col (cell fb (suc row) col))
    → Ends (Moved (InRow (suc n) row col) fb) (copy_up (suc n) (suc row) col) fb
unfolding copy_up
first_copy n row col fb g hr hc (fb', e, (g', k, inside, outside)) = (
  fb',
  rw
      (
        get_cell-cell fb (suc row) col g (omega arith) (omega arith),
        back,
        set_cell-put fb row col (cell fb (suc row) col) g (omega arith) (omega arith),
      )
      e,
  (g', k, there, apart),
)
  where
    back : suc row - 1 ≡ row
    back = omega arith

    v : Cell
    v = cell fb (suc row) col

    there : (r c : ℕ) → InRow (suc n) row col r c → cell fb' r c ≡ cell fb (suc r) c
    there r c (er, h, h') = elim (ℕ-cases c col) [
      | inl ec ↦
          outside r c (λ i. absurd (omega (arith, i)))
          ∙ rw (er, ec) (cell-put_self fb row col v g (omega arith) (omega arith))
      | inr ne ↦
          inside r c (er, omega arith, omega arith)
          ∙ cell-put_ne fb row col (suc r) c v g (omega arith) (inl (omega arith))
    ]

    differs : (r c : ℕ) → ¬ InRow (suc n) row col r c → (row ≢ r) ⊎ (col ≢ c)
    differs r c h = elim (ℕ-cases row r) [
      | inl er ↦ inr (λ ec. h (sym er, omega arith, omega arith))
      | inr ne ↦ inl ne
    ]

    apart : (r c : ℕ) → ¬ InRow (suc n) row col r c → cell fb' r c ≡ cell fb r c
    apart r c h =
        outside r c (λ (er, a, b). h (er, omega arith, omega arith))
        ∙ cell-put_ne fb row col r c v g (omega arith) (differs r c h)

copy_up-Moved :
    (n row col : ℕ) (fb : FrameBuffer)
    → IsGrid fb.text_buf
    → row < 24
    → col + n ≤ 80
    → Ends (Moved (InRow n row col) fb) (copy_up n (suc row) col) fb
unfolding copy_up
copy_up-Moved zero row col fb g hr hc =
    (fb, refl, (g, (refl, refl, refl), λ r c h. absurd (omega (arith, h)), λ r c h. refl))
copy_up-Moved (suc n) row col fb g hr hc = first_copy n row col fb g hr hc (
    copy_up-Moved n row (suc col) (put fb row col (cell fb (suc row) col))
      (put-IsGrid fb row col _ g (omega arith)) hr (omega arith))

first_scroll :
    (n row : ℕ) (fb fb₁ : FrameBuffer)
    → Moved (InRow 80 row 0) fb fb₁
    → Ends (Moved (InRows n (suc row)) fb₁) (scroll_rows n (suc (suc row))) fb₁
    → copy_up 80 (suc row) 0 fb ≡ (ok tt, fb₁)
    → Ends (Moved (InRows (suc n) row) fb) (scroll_rows (suc n) (suc row)) fb
unfolding scroll_rows
first_scroll n row fb fb₁ (g, k, ins, out) (fb', e, (g', k', inside, outside)) first =
    (fb', rw first e, (g', (k'.0 ∙ k.0, k'.1 ∙ k.1, k'.2 ∙ k.2), there, apart))
  where
    there : (r c : ℕ) → InRows (suc n) row r c → cell fb' r c ≡ cell fb (suc r) c
    there r c (h, h', hc) = elim (ℕ-cases r row) [
      | inl er ↦
          outside r c (λ i. absurd (omega (arith, i))) ∙ ins r c (er, omega arith, omega arith)
      | inr ne ↦
          inside r c (omega arith, omega arith, hc) ∙ out (suc r) c (λ i. absurd (omega (arith, i)))
    ]

    apart : (r c : ℕ) → ¬ InRows (suc n) row r c → cell fb' r c ≡ cell fb r c
    apart r c h =
        outside r c (λ (a, b, d). h (omega arith, omega arith, d))
        ∙ out r c (λ (er, a, b). h (omega arith, omega arith, omega arith))

scroll_rows-Moved :
    (n row : ℕ) (fb : FrameBuffer)
    → IsGrid fb.text_buf
    → row + n ≤ 24
    → Ends (Moved (InRows n row) fb) (scroll_rows n (suc row)) fb
unfolding scroll_rows
scroll_rows-Moved zero row fb g h =
    (fb, refl, (g, (refl, refl, refl), λ r c i. absurd (omega (arith, i)), λ r c i. refl))
scroll_rows-Moved (suc n) row fb g h =
    let (fb₁, e, m) = copy_up-Moved 80 row 0 fb g (omega arith) (omega arith) in
    first_scroll n row fb fb₁ m (scroll_rows-Moved n (suc row) fb₁ m.0 (omega arith)) e

-- The text buffer after a scroll: rows 0 to 23 show what was one row below, and row 24 is empty.
abbrev pub Scrolled : FrameBuffer → FrameBuffer → Type 0
Scrolled fb fb' =
    IsGrid fb'.text_buf
    × (fb'.text_cursor_x ≡ 0)
    × (fb'.text_cursor_y ≡ 24)
    × (fb'.text_fgcolor ≡ fb.text_fgcolor)
    × ((r c : ℕ) → r < 24 → c < 80 → cell fb' r c ≡ cell fb (suc r) c)
    × ((c : ℕ) → c < 80 → cell fb' 24 c ≡ none)

-- On a grid of 25 rows of 80 cells, the scrolling of `new_line` does not panic; afterwards each of
-- the rows 0 to 23 shows what stood one row below, row 24 is empty, and the cursor is at its start.
pub scroll-Scrolled : (fb : FrameBuffer) → IsGrid fb.text_buf → Ends (Scrolled fb) scroll fb
unfolding scroll
scroll-Scrolled fb g =
    let (fb₁, e, (g₁, k₁, in₁, out₁)) = scroll_rows-Moved 24 0 fb g (omega arith) in
    let (fb₂, e₂, (g₂, k₂, in₂, out₂)) =
      clear_row-Cleared 24 (record fb₁ { text_cursor_y = 24 }) g₁ (omega arith) in
    (
      record fb₂ { text_cursor_x = 0 },
      rw (e, e₂),
      (
        g₂,
        refl,
        k₂.1,
        k₂.2 ∙ k₁.2,
        λ r c h h'.
            out₂ r c (λ i. absurd (omega (arith, i))) ∙ in₁ r c (omega arith, omega arith, h'),
        λ c h. in₂ 24 c (refl, omega arith, omega arith),
      ),
    )
