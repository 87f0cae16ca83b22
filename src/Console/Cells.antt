-- ===== src/Console/Cells.antt =====
-- Reading a cell of the text buffer after a write, and what a write keeps.
use kados_ng.Base.{ℕ, suc, zero, ◌<◌, ◌≡◌, ◌≢◌, ◌⊎◌, inl, inr, refl, arith, sym}
use kados_ng.Base.{none, some, List, [], ◌∷◌, lt→ltb, ℕ-cases, get_elem?, get_or, set, length}
use kados_ng.Base.{get_or-set_self, get_or-set_ne, length-set}
use kados_ng.Mem.Outcome.{ok}
use kados_ng.Console.Buffer.{FrameBuffer, Cell, set_cell, get_cell}

-- The cell of a row and a column.
abbrev pub cell : FrameBuffer → ℕ → ℕ → Cell
cell fb row col = get_or (get_or fb.text_buf row []) col none

-- The text buffer has 25 rows of 80 cells.
abbrev pub IsGrid : List (List Cell) → Type 0
IsGrid rows = (length rows ≡ 25) × ((row : ℕ) → row < 25 → length (get_or rows row []) ≡ 80)

-- What every loop over cells keeps.
abbrev pub Frame : FrameBuffer → FrameBuffer → Type 0
Frame fb fb' =
    (fb'.text_cursor_x ≡ fb.text_cursor_x)
    × (fb'.text_cursor_y ≡ fb.text_cursor_y)
    × (fb'.text_fgcolor ≡ fb.text_fgcolor)

module _ {ℓ} {A : Type ℓ} where
  pub get_elem?-get_or :
      (xs : List A) (i : ℕ) (d : A) → i < length xs → get_elem? xs i ≡ some (get_or xs i d)
  get_elem?-get_or [] i d h = absurd (omega arith)
  get_elem?-get_or (x ∷ xs) zero d h = refl
  get_elem?-get_or (x ∷ xs) (suc i) d h = get_elem?-get_or xs i d (omega arith)

abbrev pub put : FrameBuffer → ℕ → ℕ → Cell → FrameBuffer
put fb row col v = record fb {
  text_buf = set fb.text_buf row (set (get_or fb.text_buf row []) col v);
}

pub set_cell-put :
    (fb : FrameBuffer) (row col : ℕ) (v : Cell)
    → IsGrid fb.text_buf
    → row < 25
    → col < 80
    → set_cell row col v fb ≡ (ok tt, put fb row col v)
unfolding set_cell
set_cell-put fb row col v g hr hc = simp (
  get_elem?-get_or fb.text_buf row [] (omega (arith, g.0)),
  lt→ltb col (length (get_or fb.text_buf row [])) (omega (arith, g.1 row hr)),
)

pub get_cell-cell :
    (fb : FrameBuffer) (row col : ℕ)
    → IsGrid fb.text_buf
    → row < 25
    → col < 80
    → get_cell row col fb ≡ (ok (cell fb row col), fb)
unfolding get_cell
get_cell-cell fb row col g hr hc = simp (
  get_elem?-get_or fb.text_buf row [] (omega (arith, g.0)),
  get_elem?-get_or (get_or fb.text_buf row []) col none (omega (arith, g.1 row hr)),
)

pub put-IsGrid :
    (fb : FrameBuffer) (row col : ℕ) (v : Cell)
    → IsGrid fb.text_buf
    → row < 25
    → IsGrid (put fb row col v).text_buf
put-IsGrid fb row col v g hr = (rw (length-set, g.0), rows)
  where
    rows : (r : ℕ) → r < 25 → length (get_or (put fb row col v).text_buf r []) ≡ 80
    rows r h = elim (ℕ-cases row r) [
      | inl e ↦
          rw (
            sym e,
            get_or-set_self fb.text_buf row _ [] (omega (arith, g.0)),
            length-set,
            g.1 row hr,
          )
      | inr n ↦ rw (get_or-set_ne fb.text_buf row r _ [] n, g.1 r h)
    ]

pub cell-put_self :
    (fb : FrameBuffer) (row col : ℕ) (v : Cell)
    → IsGrid fb.text_buf
    → row < 25
    → col < 80
    → cell (put fb row col v) row col ≡ v
cell-put_self fb row col v g hr hc = rw (
  get_or-set_self fb.text_buf row _ [] (omega (arith, g.0)),
  get_or-set_self (get_or fb.text_buf row []) col v none (omega (arith, g.1 row hr)),
)

pub cell-put_ne :
    (fb : FrameBuffer) (row col r c : ℕ) (v : Cell)
    → IsGrid fb.text_buf
    → row < 25
    → (row ≢ r) ⊎ (col ≢ c)
    → cell (put fb row col v) r c ≡ cell fb r c
cell-put_ne fb row col r c v g hr h = elim (ℕ-cases row r) [
  | inl e ↦ same_row e
  | inr n ↦ rw (get_or-set_ne fb.text_buf row r _ [] n)
]
  where
    other : row ≡ r → col ≢ c
    other e = elim h [ inl n ↦ absurd (n e) | inr n ↦ n ]

    same_row : row ≡ r → cell (put fb row col v) r c ≡ cell fb r c
    same_row e = rw (
      sym e,
      get_or-set_self fb.text_buf row _ [] (omega (arith, g.0)),
      get_or-set_ne (get_or fb.text_buf row []) col c v none (other e),
    )
