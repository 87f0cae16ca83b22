-- ===== src/Console/Write.antt =====
-- Writing to the console: no byte makes it panic, and its invariant holds after every byte.
use kados_ng.Base.{ℕ, suc, ◌+◌, ◌-◌, ◌<◌, ◌≡◌, ◌≢◌, ◌⊎◌, inl, inr, refl, arith, ◌∙◌}
use kados_ng.Base.{none, some, List, [], ◌∷◌, ℕ-cases, Bool-cases, leb, ◌==◌, if◌then◌else◌, min}
use kados_ng.Base.{get_or, get_or-replicate, length-replicate, replicate}
use kados_ng.Mem.Outcome.{ok}
use kados_ng.Paging.Monad.{◌>>◌}
use kados_ng.Console.Buffer.{
  FrameBuffer, Cell, Edit, set_cell, new_line, backspace, write_char, write_byte, write_string,
  move_right, scroll, init,
}
use kados_ng.Console.Cells.{cell, IsGrid, put, set_cell-put, put-IsGrid, cell-put_self, cell-put_ne}
use kados_ng.Console.Loops.{Ends, Ends-seq}
use kados_ng.Console.Scroll.{Scrolled, scroll-Scrolled}

-- The console's invariant: the buffer has 25 rows of 80 cells, the cursor is on one of them, and
-- the last column is empty.
abbrev pub IsConsole : FrameBuffer → Type 0
IsConsole fb =
    IsGrid fb.text_buf
    × (fb.text_cursor_x < 80)
    × (fb.text_cursor_y < 25)
    × ((r : ℕ) → r < 25 → cell fb r 79 ≡ none)

last_column-Scrolled :
    (fb fb' : FrameBuffer)
    → IsConsole fb
    → Scrolled fb fb'
    → (r : ℕ) → r < 25
    → cell fb' r 79 ≡ none
last_column-Scrolled fb fb' h (_, _, _, _, up, last) r hr = elim (ℕ-cases r 24) [
  | inl e ↦ rw e (last 79 (omega arith))
  | inr n ↦ up r 79 (omega arith) (omega arith) ∙ h.3 (suc r) (omega arith)
]

pub new_line-IsConsole :
    (fb : FrameBuffer)
    → IsConsole fb
    → Ends
        (λ fb'. IsConsole fb' × (fb'.text_cursor_x ≡ 0) × (fb'.text_fgcolor ≡ fb.text_fgcolor))
        new_line
        fb
unfolding new_line
new_line-IsConsole fb (g, x, y, l) = elim (Bool-cases (leb 24 fb.text_cursor_y)) [
  | inl e ↦ rw e scrolled
  | inr e ↦ rw e (
    record fb { text_cursor_y = fb.text_cursor_y + 1; text_cursor_x = 0 },
    refl,
    ((g, omega arith, ground (arith, e, y), l), refl, refl),
  )
]
  where
    scrolled :
        Ends
          (λ fb'. IsConsole fb' × (fb'.text_cursor_x ≡ 0) × (fb'.text_fgcolor ≡ fb.text_fgcolor))
          scroll
          fb
    scrolled =
        let (fb', e, s) = scroll-Scrolled fb g in
        (
          fb',
          e,
          (
            (
              s.0,
              omega (arith, s.1),
              omega (arith, s.2),
              last_column-Scrolled fb fb' (g, x, y, l) s,
            ),
            s.1,
            s.3,
          ),
        )

-- The end of `write_char`, when the cursor is not in the last column.
abbrev pub Placed : ℕ → FrameBuffer → FrameBuffer → Type 0
Placed byte fb fb' =
    IsConsole fb'
    × (fb'.text_cursor_x ≡ fb.text_cursor_x + 1)
    × (fb'.text_cursor_y ≡ fb.text_cursor_y)
    × (fb'.text_fgcolor ≡ fb.text_fgcolor)
    × (cell fb' fb.text_cursor_y fb.text_cursor_x
        ≡ some record { char = byte; fg = fb.text_fgcolor })
    × ((r c : ℕ) → (fb.text_cursor_y ≢ r) ⊎ (fb.text_cursor_x ≢ c) → cell fb' r c ≡ cell fb r c)

place : ℕ → Edit
place byte =
    (λ fb.
      set_cell fb.text_cursor_y fb.text_cursor_x (some record { char = byte; fg = fb.text_fgcolor })
        fb)
    >> move_right

place-Placed :
    (byte : ℕ) (fb : FrameBuffer)
    → IsConsole fb
    → fb.text_cursor_x < 79
    → Ends (Placed byte fb) (place byte) fb
unfolding place move_right
place-Placed byte fb (g, x, y, l) hx = (
  record (put fb fb.text_cursor_y fb.text_cursor_x v) {
    text_cursor_x = min (fb.text_cursor_x + 1) 79;
  },
  rw (set_cell-put fb fb.text_cursor_y fb.text_cursor_x v g y x) refl,
  (
    (
      put-IsGrid fb fb.text_cursor_y fb.text_cursor_x v g y,
      omega arith,
      y,
      λ r h.
          cell-put_ne fb fb.text_cursor_y fb.text_cursor_x r 79 v g y (inr (omega arith)) ∙ l r h,
    ),
    omega arith,
    refl,
    refl,
    cell-put_self fb fb.text_cursor_y fb.text_cursor_x v g y x,
    λ r c h. cell-put_ne fb fb.text_cursor_y fb.text_cursor_x r c v g y h,
  ),
)
  where
    v : Cell
    v = some record { char = byte; fg = fb.text_fgcolor }

write_char_at :
    (byte : ℕ) (fb fb' : FrameBuffer)
    → Ends (Placed byte fb') (place byte) fb'
    → (if leb 79 fb.text_cursor_x then new_line fb else (ok tt, fb)) ≡ (ok tt, fb')
    → Ends (Placed byte fb') (write_char byte) fb
unfolding write_char place
write_char_at byte fb fb' (fb₂, e, p) h = (fb₂, rw h e, p)

-- A character before the last column goes where the cursor is.
pub write_char-Placed :
    (byte : ℕ) (fb : FrameBuffer)
    → IsConsole fb
    → fb.text_cursor_x < 79
    → Ends (Placed byte fb) (write_char byte) fb
write_char-Placed byte fb h hx =
    write_char_at byte fb fb (place-Placed byte fb h hx) (ground (arith, hx))

write_char-IsConsole :
    (byte : ℕ) (fb : FrameBuffer) → IsConsole fb → Ends IsConsole (write_char byte) fb
write_char-IsConsole byte fb h = elim (Bool-cases (leb 79 fb.text_cursor_x)) [
  | inl e ↦
      let (fb₁, e₁, (h₁, x₁, _)) = new_line-IsConsole fb h in
      let (fb₂, e₂, p) =
        write_char_at byte fb fb₁ (place-Placed byte fb₁ h₁ (omega arith)) (rw e e₁) in
      (fb₂, e₂, p.0)
  | inr e ↦ let (fb₂, e₂, p) = write_char-Placed byte fb h (ground (arith, e)) in (fb₂, e₂, p.0)
]

backspace-IsConsole : (fb : FrameBuffer) → IsConsole fb → Ends IsConsole backspace fb
unfolding backspace
backspace-IsConsole fb (g, x, y, l) = (
  record (put fb fb.text_cursor_y (fb.text_cursor_x - 1) none) {
    text_cursor_x = fb.text_cursor_x - 1;
  },
  rw (set_cell-put fb fb.text_cursor_y (fb.text_cursor_x - 1) none g y (omega arith)) refl,
  (
    put-IsGrid fb fb.text_cursor_y (fb.text_cursor_x - 1) none g y,
    omega arith,
    y,
    λ r h.
        cell-put_ne fb fb.text_cursor_y (fb.text_cursor_x - 1) r 79 none g y (inr (omega arith))
        ∙ l r h,
  ),
)

-- From a state where the invariant holds, `write_byte` ends without a panic on every byte, and the
-- invariant holds again: the cursor stays inside the buffer and the last column stays empty.
pub write_byte-IsConsole :
    (byte : ℕ) (fb : FrameBuffer) → IsConsole fb → Ends IsConsole (write_byte byte) fb
unfolding write_byte
write_byte-IsConsole byte fb h = elim (Bool-cases (byte == 8)) [
  | inl e ↦ rw e (backspace-IsConsole fb h)
  | inr e ↦ rw e (elim (Bool-cases (byte == 10)) [
    | inl e₁ ↦ rw e₁ (let (fb', w, p) = new_line-IsConsole fb h in (fb', w, p.0))
    | inr e₁ ↦ rw e₁ (elim (Bool-cases (byte == 13)) [
      | inl e₂ ↦ rw e₂ (record fb { text_cursor_x = 0 }, refl, (h.0, omega arith, h.2, h.3))
      | inr e₂ ↦ rw e₂ (write_char-IsConsole byte fb h)
    ])
  ])
]

-- From a console whose buffer has 25 rows of 80 cells, whose cursor is on one of them and whose
-- last column is empty, `write_string` ends without a panic whatever the bytes are, and all of this
-- holds again.
pub write_string-IsConsole :
    (bytes : List ℕ) (fb : FrameBuffer) → IsConsole fb → Ends IsConsole (write_string bytes) fb
unfolding write_string
write_string-IsConsole [] fb h = (fb, refl, h)
write_string-IsConsole (byte ∷ bytes) fb h =
    Ends-seq IsConsole IsConsole (write_byte byte) (write_string bytes) fb
      (write_byte-IsConsole byte fb h) (write_string-IsConsole bytes)

-- The console that `init` makes satisfies the console's invariant, whatever the size of the screen,
-- and all of its cells are empty.
pub init-IsConsole :
    (size_bytes width height : ℕ)
    → IsConsole (init size_bytes width height)
      × ((r c : ℕ) → r < 25 → c < 80 → cell (init size_bytes width height) r c ≡ none)
unfolding init
init-IsConsole size_bytes width height = (
  (
    (length-replicate 25 empty_row, λ r h. rw (row r h) (length-replicate {A = Cell} 80 none)),
    omega arith,
    omega arith,
    λ r h. blank r 79 h (omega arith),
  ),
  blank,
)
  where
    empty_row : List Cell
    empty_row = replicate 80 none

    row : (r : ℕ) → r < 25 → get_or (replicate 25 empty_row) r [] ≡ empty_row
    row r h = get_or-replicate 25 empty_row [] r h

    blank :
        (r c : ℕ) → r < 25 → c < 80 → get_or (get_or (replicate 25 empty_row) r []) c none ≡ none
    blank r c h k = rw (row r h) (get_or-replicate 80 none none c k)
