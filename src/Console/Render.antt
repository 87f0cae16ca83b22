-- ===== src/Console/Render.antt =====
-- What the rendering of the text buffer leaves in the back buffer.
use kados_ng.Base.{ℕ, suc, zero, ◌+◌, ◌≤◌, ◌<◌, refl, arith}
use kados_ng.Base.{List, [], ◌++◌}
use kados_ng.Paging.Monad.{◌>>=◌}
use kados_ng.Console.Buffer.{FrameBuffer, Color, get_cell}
use kados_ng.Console.Cells.{cell, IsGrid, get_cell-cell}
use kados_ng.Console.Pixels.{ℤ, Pixel, draw_iter, cell_pixels, render_cols, render_lines}
use kados_ng.Console.Draw.{IsScreen, with_pixels, Draws, Draws-seq, draw_iter-Draws}

module _ (text_draw : ℕ → ℤ → ℤ → Color → List Pixel) (char_width char_height : ℕ) where
  -- The pixels of the text buffer, cell by cell.
  abbrev pub cols_pixels : FrameBuffer → ℕ → ℕ → ℕ → List Pixel
  cols_pixels fb zero line col = []
  cols_pixels fb (suc n) line col =
      cell_pixels text_draw char_width char_height (cell fb line col) col line
      ++ cols_pixels fb n line (suc col)

  abbrev pub lines_pixels : FrameBuffer → ℕ → ℕ → List Pixel
  lines_pixels fb zero line = []
  lines_pixels fb (suc n) line = cols_pixels fb 80 line 0 ++ lines_pixels fb n (suc line)

  abbrev pub text_pixels : FrameBuffer → List Pixel
  text_pixels fb = lines_pixels fb 25 0

  render_cell-Draws :
      (fb : FrameBuffer) (line col : ℕ)
      → IsGrid fb.text_buf
      → IsScreen fb
      → line < 25
      → col < 80
      → Draws
          (cell_pixels text_draw char_width char_height (cell fb line col) col line)
          (get_cell line col >>= λ c.
            draw_iter (cell_pixels text_draw char_width char_height c col line))
          fb
  render_cell-Draws fb line col g s hl hc =
      let (b, h, l, r) =
        draw_iter-Draws (cell_pixels text_draw char_width char_height (cell fb line col) col line)
          fb s in
      (b, rw (get_cell-cell fb line col g hl hc) h, l, r)

  render_cols-Draws :
      (n line col : ℕ) (fb : FrameBuffer)
      → IsGrid fb.text_buf
      → IsScreen fb
      → line < 25
      → col + n ≤ 80
      → Draws
          (cols_pixels fb n line col)
          (render_cols text_draw char_width char_height n line col)
          fb
  unfolding render_cols
  render_cols-Draws zero line col fb g s hl hc = (fb.back_buffer, refl, refl, λ x y hx hy. refl)
  render_cols-Draws (suc n) line col fb g s hl hc =
      Draws-seq (cell_pixels text_draw char_width char_height (cell fb line col) col line)
        (cols_pixels fb n line (suc col))
        (get_cell line col >>= λ c.
          draw_iter (cell_pixels text_draw char_width char_height c col line))
        (render_cols text_draw char_width char_height n line (suc col)) fb
        (render_cell-Draws fb line col g s hl (omega arith))
        (λ b l.
          render_cols-Draws n line (suc col) (with_pixels fb b) g (rw (l) s.0, s.1, s.2) hl
            (omega arith))

  pub render_lines-Draws :
      (n line : ℕ) (fb : FrameBuffer)
      → IsGrid fb.text_buf
      → IsScreen fb
      → line + n ≤ 25
      → Draws (lines_pixels fb n line) (render_lines text_draw char_width char_height n line) fb
  unfolding render_lines
  render_lines-Draws zero line fb g s h = (fb.back_buffer, refl, refl, λ x y hx hy. refl)
  render_lines-Draws (suc n) line fb g s h =
      Draws-seq (cols_pixels fb 80 line 0) (lines_pixels fb n (suc line))
        (render_cols text_draw char_width char_height 80 line 0)
        (render_lines text_draw char_width char_height n (suc line)) fb
        (render_cols-Draws 80 line 0 fb g s (omega arith) (omega arith))
        (λ b l.
          render_lines-Draws n (suc line) (with_pixels fb b) g (rw (l) s.0, s.1, s.2) (omega arith))
