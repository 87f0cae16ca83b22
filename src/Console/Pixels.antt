-- ===== src/Console/Pixels.antt =====
-- The pixels of framebuffer.rs: drawing into the back buffer, the rendering of the text buffer and
-- `present`. The package embedded_graphics draws a text: what it draws is a parameter.
use kados_ng.Base.{ℕ, suc, zero, ◌+◌, ◌-◌, ◌*◌, ◌/◌, ◌%◌, ◌^◌}
use kados_ng.Base.{
  Bool, false, ◌&&◌, none, some, List, [], ◌∷◌, ltb, ◌==◌, if◌then◌else◌, length, get_or, replicate,
}
use kados_ng.Mem.Outcome.{ok, err, panic, Outcome}
use kados_ng.Paging.Monad.{◌>>=◌, ◌>>◌, pure}
use kados_ng.Console.Buffer.{
  FrameBuffer, FbChar, Cell, Color, Edit, set_pixel, get_cell, write_string, text_buffer_width,
  text_buffer_height,
}

pub data ℤ : Type 0 where
  pos negsuc : ℕ → ℤ

-- A `Pixel`: its coordinates, which are of type `i32`, and its colour.
pub record Pixel : Type 0 where
  pub x : ℤ
  pub y : ℤ
  pub color : Color

-- `(0..n as i32).contains(&i)`
abbrev pub contains : ℕ → ℤ → Bool
contains n (pos i) = ltb (n % 2 ^ 32) (2 ^ 31) && ltb i (n % 2 ^ 32)
contains n (negsuc i) = false

-- `x as usize`
abbrev pub as_usize : ℤ → ℕ
as_usize (pos i) = i
as_usize (negsuc i) = 2 ^ 64 - suc i

abbrev pub draw_pixel : Pixel → Edit
draw_pixel p fb =
    if contains fb.width p.x && contains fb.height p.y
    then set_pixel (as_usize p.x) (as_usize p.y) p.color fb
    else (ok tt, fb)

unfoldable pub draw_iter : List Pixel → Edit
draw_iter [] = pure tt
draw_iter (p ∷ ps) = draw_pixel p >> draw_iter ps

abbrev pub clear : Color → Edit
clear color fb = (ok tt, record fb { back_buffer = replicate (length fb.back_buffer) color })

abbrev pub clear_pixels : Edit
clear_pixels = clear 0

-- The words of the screen.
abbrev pub Screen : Type 0
Screen = ℕ → ℕ

-- The copy of `size_bytes / 4` words, for which `init` makes a back buffer that long.
abbrev pub present : ℕ → FrameBuffer → Screen → Screen
present size_bytes fb screen i =
    if ltb i (size_bytes / 4) then get_or fb.back_buffer i 0 else screen i

-- `set_pixel_raw`, which writes to the screen itself.
unfoldable pub set_pixel_raw : ℕ → ℕ → ℕ → ℕ → FrameBuffer → Screen → Screen
set_pixel_raw size_bytes x y color fb screen i =
    let offset = x + y * fb.width in
    if ltb (size_bytes / 4) offset then screen i else if i == offset then color else screen i

-- `text_draw` gives the pixels of a character of a colour whose text stands at a point; the other
-- parameters are the size of the font's characters.
module _ (text_draw : ℕ → ℤ → ℤ → Color → List Pixel) (char_width char_height : ℕ) where
  -- What drawing the text of `as_text` draws.
  abbrev pub as_text : FbChar → ℕ → ℕ → List Pixel
  as_text ch x y =
      text_draw (if ltb ch.char 128 then ch.char else 32) (pos (char_width * (x + 1)))
        (pos (char_height * (y + 1))) ch.fg

  abbrev pub cell_pixels : Cell → ℕ → ℕ → List Pixel
  cell_pixels none x y = []
  cell_pixels (some ch) x y = as_text ch x y

  -- The loop over the columns from `col` on, for `n` rounds, and that over the lines.
  unfoldable pub render_cols : ℕ → ℕ → ℕ → Edit
  render_cols zero line col = pure tt
  render_cols (suc n) line col =
      (get_cell line col >>= λ c. draw_iter (cell_pixels c col line))
      >> render_cols n line (suc col)

  unfoldable pub render_lines : ℕ → ℕ → Edit
  render_lines zero line = pure tt
  render_lines (suc n) line = render_cols text_buffer_width line 0 >> render_lines n (suc line)

  unfoldable pub render_text_buf : Edit
  render_text_buf = render_lines text_buffer_height 0

  abbrev pub presented :
      ℕ → Outcome (Unit {0}) × FrameBuffer → Screen → Outcome (Unit {0}) × FrameBuffer × Screen
  presented size_bytes (ok u, fb) screen = (ok u, fb, present size_bytes fb screen)
  presented size_bytes (err e, fb) screen = (err e, fb, screen)
  presented size_bytes (panic, fb) screen = (panic, fb, screen)

  -- `write_fmt` with the framebuffer's lock, for the bytes of the formatted text.
  unfoldable pub write_fmt :
      ℕ → List ℕ → FrameBuffer → Screen → Outcome (Unit {0}) × FrameBuffer × Screen
  write_fmt size_bytes bytes fb screen =
      presented size_bytes ((write_string bytes >> clear_pixels >> render_text_buf) fb) screen
