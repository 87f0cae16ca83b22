-- ===== src/Console/Loops.antt =====
-- The loops that clear cells: `clear_cells` and `clear_rows` clear their rectangle and nothing else.
use kados_ng.Base.{ℕ, suc, zero, ◌+◌, ◌<◌, ◌≤◌, ◌≡◌, ◌≢◌, ◌⊎◌, inl, inr, refl, arith, sym, ◌∙◌}
use kados_ng.Base.{none, ℕ-cases}
use kados_ng.Mem.Outcome.{ok}
use kados_ng.Paging.Monad.{◌>>◌}
use kados_ng.Console.Buffer.{FrameBuffer, Edit, clear_cells, clear_row, clear_rows}
use kados_ng.Console.Cells.{
  cell, IsGrid, Frame, put, set_cell-put, put-IsGrid, cell-put_self, cell-put_ne,
}

-- An edit ends without a panic, in a state with this property.
abbrev pub Ends : (FrameBuffer → Type 0) → Edit → FrameBuffer → Type 0
Ends P e fb = (fb' : FrameBuffer) × (e fb ≡ (ok tt, fb')) × P fb'

pub Ends-seq :
    (P Q : FrameBuffer → Type 0) (e f : Edit) (fb : FrameBuffer)
    → Ends P e fb
    → ((fb' : FrameBuffer) → P fb' → Ends Q f fb')
    → Ends Q (e >> f) fb
Ends-seq P Q e f fb (fb', h, p) k = let (fb₂, h₂, q) = k fb' p in (fb₂, rw h h₂, q)

-- Which cells a range of one row holds.
abbrev pub InRow : ℕ → ℕ → ℕ → ℕ → ℕ → Type 0
InRow n row col r c = (r ≡ row) × (col ≤ c) × (c < col + n)

abbrev pub InRows : ℕ → ℕ → ℕ → ℕ → Type 0
InRows n row r c = (row ≤ r) × (r < row + n) × (c < 80)

-- The cells of a region are cleared and the others stay; so do the cursor and the colour.
abbrev pub Cleared : (ℕ → ℕ → Type 0) → FrameBuffer → FrameBuffer → Type 0
Cleared In fb fb' =
    IsGrid fb'.text_buf
    × Frame fb fb'
    × ((r c : ℕ) → In r c → cell fb' r c ≡ none)
    × ((r c : ℕ) → ¬ In r c → cell fb' r c ≡ cell fb r c)

first_cell :
    (n row col : ℕ) (fb : FrameBuffer)
    → IsGrid fb.text_buf
    → row < 25
    → col + suc n ≤ 80
    → Ends
        (Cleared (InRow n row (suc col)) (put fb row col none))
        (clear_cells n row (suc col))
        (put fb row col none)
    → Ends (Cleared (InRow (suc n) row col) fb) (clear_cells (suc n) row col) fb
unfolding clear_cells
first_cell n row col fb g hr hc (fb', e, (g', k, inside, outside)) =
    (fb', rw (set_cell-put fb row col none g hr (omega arith)) e, (g', k, there, apart))
  where
    there : (r c : ℕ) → InRow (suc n) row col r c → cell fb' r c ≡ none
    there r c (er, h, h') = elim (ℕ-cases c col) [
      | inl ec ↦
          outside r c (λ i. absurd (omega (arith, i)))
          ∙ rw (er, ec) (cell-put_self fb row col none g hr (omega arith))
      | inr ne ↦ inside r c (er, omega arith, omega arith)
    ]

    differs : (r c : ℕ) → ¬ InRow (suc n) row col r c → (row ≢ r) ⊎ (col ≢ c)
    differs r c h = elim (ℕ-cases row r) [
      | inl er ↦ inr (λ ec. h (sym er, omega arith, omega arith))
      | inr ne ↦ inl ne
    ]

    apart : (r c : ℕ) → ¬ InRow (suc n) row col r c → cell fb' r c ≡ cell fb r c
    apart r c h =
        outside r c (λ (er, a, b). h (er, omega arith, omega arith))
        ∙ cell-put_ne fb row col r c none g hr (differs r c h)

pub clear_cells-Cleared :
    (n row col : ℕ) (fb : FrameBuffer)
    → IsGrid fb.text_buf
    → row < 25
    → col + n ≤ 80
    → Ends (Cleared (InRow n row col) fb) (clear_cells n row col) fb
unfolding clear_cells
clear_cells-Cleared zero row col fb g hr hc =
    (fb, refl, (g, (refl, refl, refl), λ r c h. absurd (omega (arith, h)), λ r c h. refl))
clear_cells-Cleared (suc n) row col fb g hr hc = first_cell n row col fb g hr hc (
    clear_cells-Cleared n row (suc col) (put fb row col none) (put-IsGrid fb row col none g hr) hr
      (omega arith))

first_row :
    (n row : ℕ) (fb fb₁ : FrameBuffer)
    → Cleared (InRow 80 row 0) fb fb₁
    → Ends (Cleared (InRows n (suc row)) fb₁) (clear_rows n (suc row)) fb₁
    → clear_row row fb ≡ (ok tt, fb₁)
    → Ends (Cleared (InRows (suc n) row) fb) (clear_rows (suc n) row) fb
unfolding clear_rows
first_row n row fb fb₁ (g, k, ins, out) (fb', e, (g', k', inside, outside)) first =
    (fb', rw first e, (g', (k'.0 ∙ k.0, k'.1 ∙ k.1, k'.2 ∙ k.2), there, apart))
  where
    there : (r c : ℕ) → InRows (suc n) row r c → cell fb' r c ≡ none
    there r c (h, h', hc) = elim (ℕ-cases r row) [
      | inl er ↦
          outside r c (λ i. absurd (omega (arith, i))) ∙ ins r c (er, omega arith, omega arith)
      | inr ne ↦ inside r c (omega arith, omega arith, hc)
    ]

    apart : (r c : ℕ) → ¬ InRows (suc n) row r c → cell fb' r c ≡ cell fb r c
    apart r c h =
        outside r c (λ (a, b, d). h (omega arith, omega arith, d))
        ∙ out r c (λ (er, a, b). h (omega arith, omega arith, omega arith))

pub clear_row-Cleared :
    (row : ℕ) (fb : FrameBuffer)
    → IsGrid fb.text_buf
    → row < 25
    → Ends (Cleared (InRow 80 row 0) fb) (clear_row row) fb
unfolding clear_row
clear_row-Cleared row fb g h = clear_cells-Cleared 80 row 0 fb g h (omega arith)

pub clear_rows-Cleared :
    (n row : ℕ) (fb : FrameBuffer)
    → IsGrid fb.text_buf
    → row + n ≤ 25
    → Ends (Cleared (InRows n row) fb) (clear_rows n row) fb
unfolding clear_rows
clear_rows-Cleared zero row fb g h =
    (fb, refl, (g, (refl, refl, refl), λ r c i. absurd (omega (arith, i)), λ r c i. refl))
clear_rows-Cleared (suc n) row fb g h =
    let (fb₁, e, cl) = clear_row-Cleared row fb g (omega arith) in
    first_row n row fb fb₁ cl (clear_rows-Cleared n (suc row) fb₁ cl.0 (omega arith)) e
