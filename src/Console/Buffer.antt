-- ===== src/Console/Buffer.antt =====
-- `FrameBuffer` of framebuffer.rs: its text buffer, the cursor, and every operation on them. A loop
-- `for i in a..b` takes the number of its rounds, `b - a`.
use kados_ng.Base.{ℕ, suc, zero, ◌+◌, ◌-◌, ◌*◌, ◌/◌, min}
use kados_ng.Base.{
  Option, none, some, List, [], ◌∷◌, ltb, leb, if◌then◌else◌, get_elem?, set, replicate,
}
use kados_ng.Base.{length, ◌||◌, ◌==◌}
use kados_ng.Mem.Outcome.{ok, panic}
use kados_ng.Paging.Monad.{M, ◌>>=◌, ◌>>◌, pure}

abbrev pub text_buffer_width : ℕ
text_buffer_width = 80

abbrev pub text_buffer_height : ℕ
text_buffer_height = 25

-- An `Rgb888`, as its storage word.
abbrev pub Color : Type 0
Color = ℕ

abbrev pub white : Color
white = 0xffffff

pub record FbChar : Type 0 where
  pub char : ℕ
  pub fg : Color

abbrev pub Cell : Type 0
Cell = Option FbChar

-- `start_addr`, `size_bytes` and `bpp` are left out: only the access to the screen's memory reads them.
pub record FrameBuffer : Type 0 where
  pub width : ℕ
  pub height : ℕ
  pub back_buffer : List ℕ
  pub text_buf : List (List Cell)
  pub text_cursor_x : ℕ
  pub text_cursor_y : ℕ
  pub text_fgcolor : Color

abbrev pub Edit : Type 0
Edit = M FrameBuffer (Unit {0})

abbrev pub set_text_fgcolor : Color → Edit
set_text_fgcolor color fb = (ok tt, record fb { text_fgcolor = color })

abbrev pub set_text_fgcolor_default : Edit
set_text_fgcolor_default = set_text_fgcolor white

-- `self.text_buf[row][col] = v`
abbrev pub set_cell_in : Option (List Cell) → ℕ → ℕ → Cell → Edit
set_cell_in none row col v fb = (panic, fb)
set_cell_in (some cells) row col v fb =
    if ltb col (length cells)
    then (ok tt, record fb { text_buf = set fb.text_buf row (set cells col v) })
    else (panic, fb)

unfoldable pub set_cell : ℕ → ℕ → Cell → Edit
set_cell row col v fb = set_cell_in (get_elem? fb.text_buf row) row col v fb

-- `self.text_buf[row][col]`, read.
abbrev pub cell_of : Option Cell → M FrameBuffer Cell
cell_of none fb = (panic, fb)
cell_of (some v) fb = (ok v, fb)

abbrev pub cell_in : Option (List Cell) → ℕ → M FrameBuffer Cell
cell_in none col fb = (panic, fb)
cell_in (some cells) col fb = cell_of (get_elem? cells col) fb

unfoldable pub get_cell : ℕ → ℕ → M FrameBuffer Cell
get_cell row col fb = cell_in (get_elem? fb.text_buf row) col fb

unfoldable pub move_left : Edit
move_left fb = (ok tt, record fb { text_cursor_x = fb.text_cursor_x - 1 })

unfoldable pub move_right : Edit
move_right fb =
    (ok tt, record fb { text_cursor_x = min (fb.text_cursor_x + 1) (text_buffer_width - 1) })

unfoldable pub move_up : Edit
move_up fb = (ok tt, record fb { text_cursor_y = fb.text_cursor_y - 1 })

unfoldable pub move_down : Edit
move_down fb =
    (ok tt, record fb { text_cursor_y = min (fb.text_cursor_y + 1) (text_buffer_height - 1) })

abbrev pub set_cursor_x : ℕ → Edit
set_cursor_x x fb = (ok tt, record fb { text_cursor_x = x })

abbrev pub set_cursor_y : ℕ → Edit
set_cursor_y y fb = (ok tt, record fb { text_cursor_y = y })

-- `for col in col..col + n { self.text_buf[row][col] = None; }`
unfoldable pub clear_cells : ℕ → ℕ → ℕ → Edit
clear_cells zero row col = pure tt
clear_cells (suc n) row col = set_cell row col none >> clear_cells n row (suc col)

unfoldable pub clear_row : ℕ → Edit
clear_row row = clear_cells text_buffer_width row 0

-- `for row in row..row + n { self.clear_row(row); }`
unfoldable pub clear_rows : ℕ → ℕ → Edit
clear_rows zero row = pure tt
clear_rows (suc n) row = clear_row row >> clear_rows n (suc row)

unfoldable pub clear_until_eol : Edit
clear_until_eol fb =
    clear_cells (text_buffer_width - fb.text_cursor_x) fb.text_cursor_y fb.text_cursor_x fb

unfoldable pub clear_from_bol : Edit
clear_from_bol fb = clear_cells fb.text_cursor_x fb.text_cursor_y 0 fb

unfoldable pub clear_until_end : Edit
clear_until_end = clear_until_eol >> λ fb.
    clear_rows (text_buffer_height - suc fb.text_cursor_y) (suc fb.text_cursor_y) fb

-- `self.text_cursor_y - 1` is an overflow at row 0: a panic with overflow checks, which the debug
-- build has.
unfoldable pub clear_until_beginning : Edit
clear_until_beginning = clear_from_bol >> λ fb.
    if fb.text_cursor_y == 0 then (panic, fb) else clear_rows (fb.text_cursor_y - 1) 0 fb

unfoldable pub clear_line : Edit
clear_line fb = clear_row fb.text_cursor_y fb

unfoldable pub clear_text : Edit
clear_text = clear_rows text_buffer_height 0

-- `for col in col..col + n { self.text_buf[row - 1][col] = self.text_buf[row][col]; }`
unfoldable pub copy_up : ℕ → ℕ → ℕ → Edit
copy_up zero row col = pure tt
copy_up (suc n) row col =
    get_cell row col >>= λ character. set_cell (row - 1) col character >> copy_up n row (suc col)

-- `for row in row..row + n { .. }`
unfoldable pub scroll_rows : ℕ → ℕ → Edit
scroll_rows zero row = pure tt
scroll_rows (suc n) row = copy_up text_buffer_width row 0 >> scroll_rows n (suc row)

unfoldable pub scroll : Edit
scroll =
    scroll_rows (text_buffer_height - 1) 1
    >> set_cursor_y (text_buffer_height - 1)
    >> clear_row (text_buffer_height - 1)
    >> set_cursor_x 0

unfoldable pub new_line : Edit
new_line fb =
    if leb (text_buffer_height - 1) fb.text_cursor_y
    then scroll fb
    else (ok tt, record fb { text_cursor_y = fb.text_cursor_y + 1; text_cursor_x = 0 })

unfoldable pub backspace : Edit
backspace fb =
    (set_cell fb.text_cursor_y (fb.text_cursor_x - 1) none >> set_cursor_x (fb.text_cursor_x - 1))
      fb

-- The last arm of `write_byte`.
unfoldable pub write_char : ℕ → Edit
write_char byte =
    (λ fb. if leb (text_buffer_width - 1) fb.text_cursor_x then new_line fb else (ok tt, fb))
    >> (λ fb.
        set_cell fb.text_cursor_y fb.text_cursor_x
          (some record { char = byte; fg = fb.text_fgcolor }) fb)
    >> move_right

unfoldable pub write_byte : ℕ → Edit
write_byte byte =
    if byte == 8
    then backspace
    else if byte == 10
    then new_line
    else if byte == 13
    then set_cursor_x 0
    else write_char byte

unfoldable pub write_string : List ℕ → Edit
write_string [] = pure tt
write_string (byte ∷ bytes) = write_byte byte >> write_string bytes

-- `set_pixel`: the index into the back buffer is checked, and out of range it panics.
unfoldable pub set_pixel : ℕ → ℕ → Color → Edit
set_pixel x y color fb =
    if leb fb.width x || leb fb.height y
    then (ok tt, fb)
    else if ltb (x + y * fb.width) (length fb.back_buffer)
    then (ok tt, record fb { back_buffer = set fb.back_buffer (x + y * fb.width) color })
    else (panic, fb)

-- The state that `init` builds before its first calls.
unfoldable pub init : ℕ → ℕ → ℕ → FrameBuffer
init size_bytes width height = record {
  width = width;
  height = height;
  back_buffer = replicate (size_bytes / 4) 0;
  text_buf = replicate text_buffer_height (replicate text_buffer_width none);
  text_cursor_x = 0;
  text_cursor_y = 0;
  text_fgcolor = white;
}
