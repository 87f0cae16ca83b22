-- ===== src/Console/Geometry.antt =====
-- The operations on the text buffer leave the pixels and the size of the screen alone.
use kados_ng.Base.{
  ℕ, suc, zero, ◌-◌, ◌≡◌, refl, arith, ◌∙◌, Bool, Bool-cases, inl, inr, some, none, List, [], ◌∷◌,
  leb, ◌==◌, if◌then◌else◌, get_elem?, Option,
}
use kados_ng.Mem.Outcome.{Outcome, ok, err, panic}
use kados_ng.Paging.Monad.{M, bind, ◌>>=◌, ◌>>◌, pure}
use kados_ng.Console.Buffer.{
  FrameBuffer, Cell, Edit, set_cell, set_cell_in, get_cell, cell_in, cell_of, clear_cells,
  clear_row, copy_up, scroll_rows, scroll, set_cursor_x, set_cursor_y, new_line, backspace,
  write_char, write_byte, write_string, move_right,
}

abbrev pub geometry : FrameBuffer → ℕ × ℕ × List ℕ
geometry fb = (fb.width, fb.height, fb.back_buffer)

abbrev pub Keeps : {A : Type 0} → M FrameBuffer A → Type 0
Keeps {A} e = (fb : FrameBuffer) → geometry (e fb).1 ≡ geometry fb

Keeps-bind :
    {A B : Type 0} (r : Outcome A × FrameBuffer) (f : A → M FrameBuffer B)
    → ((a : A) → Keeps (f a))
    → geometry (bind r f).1 ≡ geometry r.1
Keeps-bind (ok a, fb) f k = k a fb
Keeps-bind (err e, fb) f k = refl
Keeps-bind (panic, fb) f k = refl

Keeps-seq :
    {A B : Type 0} (e : M FrameBuffer A) (f : A → M FrameBuffer B)
    → Keeps e
    → ((a : A) → Keeps (f a))
    → Keeps (e >>= f)
Keeps-seq e f h k fb = Keeps-bind (e fb) f k ∙ h fb

Keeps-ite :
    (c : FrameBuffer → Bool) (e f : Edit)
    → Keeps e
    → Keeps f
    → Keeps (λ fb. if c fb then e fb else f fb)
Keeps-ite c e f he hf fb = elim (Bool-cases (c fb)) [ inl h ↦ rw h (he fb) | inr h ↦ rw h (hf fb) ]

set_cell-Keeps : (row col : ℕ) (v : Cell) → Keeps (set_cell row col v)
unfolding set_cell
set_cell-Keeps row col v fb = in_row (get_elem? fb.text_buf row)
  where
    in_row :
        (cells : Option (List Cell)) → geometry (set_cell_in cells row col v fb).1 ≡ geometry fb
    in_row none = refl
    in_row (some cells) = ground (arith)

get_cell-Keeps : (row col : ℕ) → Keeps (get_cell row col)
unfolding get_cell
get_cell-Keeps row col fb = in_row (get_elem? fb.text_buf row)
  where
    of_cell : (c : Option Cell) → geometry (cell_of c fb).1 ≡ geometry fb
    of_cell none = refl
    of_cell (some c) = refl

    in_row : (cells : Option (List Cell)) → geometry (cell_in cells col fb).1 ≡ geometry fb
    in_row none = refl
    in_row (some cells) = of_cell (get_elem? cells col)

clear_cells-Keeps : (n row col : ℕ) → Keeps (clear_cells n row col)
unfolding clear_cells
clear_cells-Keeps zero row col fb = refl
clear_cells-Keeps (suc n) row col fb =
    Keeps-seq (set_cell row col none) (λ _. clear_cells n row (suc col))
      (set_cell-Keeps row col none) (λ _. clear_cells-Keeps n row (suc col)) fb

copy_up-Keeps : (n row col : ℕ) → Keeps (copy_up n row col)
unfolding copy_up
copy_up-Keeps zero row col fb = refl
copy_up-Keeps (suc n) row col fb =
    Keeps-seq (get_cell row col) (λ c. set_cell (row - 1) col c >> copy_up n row (suc col))
      (get_cell-Keeps row col)
      (λ c.
        Keeps-seq (set_cell (row - 1) col c) (λ _. copy_up n row (suc col))
          (set_cell-Keeps (row - 1) col c) (λ _. copy_up-Keeps n row (suc col)))
      fb

scroll_rows-Keeps : (n row : ℕ) → Keeps (scroll_rows n row)
unfolding scroll_rows
scroll_rows-Keeps zero row fb = refl
scroll_rows-Keeps (suc n) row fb =
    Keeps-seq (copy_up 80 row 0) (λ _. scroll_rows n (suc row)) (copy_up-Keeps 80 row 0)
      (λ _. scroll_rows-Keeps n (suc row)) fb

clear_row-Keeps : (row : ℕ) → Keeps (clear_row row)
unfolding clear_row
clear_row-Keeps row = clear_cells-Keeps 80 row 0

scroll-Keeps : Keeps scroll
unfolding scroll
scroll-Keeps =
    Keeps-seq (scroll_rows 24 1 >> set_cursor_y 24 >> clear_row 24) (λ _. set_cursor_x 0)
      (Keeps-seq (scroll_rows 24 1 >> set_cursor_y 24) (λ _. clear_row 24)
        (Keeps-seq (scroll_rows 24 1) (λ _. set_cursor_y 24) (scroll_rows-Keeps 24 1)
          (λ _ fb. refl))
        (λ _. clear_row-Keeps 24))
      (λ _ fb. refl)

new_line-Keeps : Keeps new_line
unfolding new_line
new_line-Keeps fb = elim (Bool-cases (leb 24 fb.text_cursor_y)) [
  | inl h ↦ rw h (scroll-Keeps fb)
  | inr h ↦ rw h refl
]

backspace-Keeps : Keeps backspace
unfolding backspace
backspace-Keeps fb =
    Keeps-seq (set_cell fb.text_cursor_y (fb.text_cursor_x - 1) none)
      (λ _. set_cursor_x (fb.text_cursor_x - 1))
      (set_cell-Keeps fb.text_cursor_y (fb.text_cursor_x - 1) none) (λ _ fb. refl) fb

write_char-Keeps : (byte : ℕ) → Keeps (write_char byte)
unfolding write_char move_right
write_char-Keeps byte =
    Keeps-seq (wrap >> store) (λ _. move_right)
      (Keeps-seq wrap (λ _. store) wrap-Keeps
        (λ _ fb.
          set_cell-Keeps fb.text_cursor_y fb.text_cursor_x
            (some record { char = byte; fg = fb.text_fgcolor }) fb))
      (λ _ fb. refl)
  where
    wrap : Edit
    wrap fb = if leb 79 fb.text_cursor_x then new_line fb else (ok tt, fb)

    store : Edit
    store fb =
        set_cell fb.text_cursor_y fb.text_cursor_x
          (some record { char = byte; fg = fb.text_fgcolor }) fb

    wrap-Keeps : Keeps wrap
    wrap-Keeps =
        Keeps-ite (λ fb. leb 79 fb.text_cursor_x) new_line pure_unit new_line-Keeps (λ fb. refl)
      where
        pure_unit : Edit
        pure_unit = pure tt

write_byte-Keeps : (byte : ℕ) → Keeps (write_byte byte)
unfolding write_byte
write_byte-Keeps byte fb = elim (Bool-cases (byte == 8)) [
  | inl h ↦ rw h (backspace-Keeps fb)
  | inr h ↦ elim (Bool-cases (byte == 10)) [
    | inl h' ↦ rw (h, h') (new_line-Keeps fb)
    | inr h' ↦ elim (Bool-cases (byte == 13)) [
      | inl h₂ ↦ rw (h, h', h₂) refl
      | inr h₂ ↦ rw (h, h', h₂) (write_char-Keeps byte fb)
    ]
  ]
]

pub write_string-Keeps : (bytes : List ℕ) → Keeps (write_string bytes)
unfolding write_string
write_string-Keeps [] fb = refl
write_string-Keeps (byte ∷ bytes) fb =
    Keeps-seq (write_byte byte) (λ _. write_string bytes) (write_byte-Keeps byte)
      (λ _. write_string-Keeps bytes) fb
