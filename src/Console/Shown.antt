-- ===== src/Console/Shown.antt =====
-- What the screen shows after `write_fmt`.
use kados_ng.Base.{
  ℕ, ◌+◌, ◌*◌, ◌/◌, ◌≤◌, ◌<◌, ◌≡◌, refl, arith, sym, ap, ◌∙◌, List, lt→ltb, ltb_of_le, length,
  get_or-replicate, length-replicate, replicate,
}
use kados_ng.Mem.Outcome.{ok}
use kados_ng.Paging.Monad.{◌>>◌}
use kados_ng.Console.Buffer.{FrameBuffer, Color, write_string}
use kados_ng.Console.Write.{IsConsole, write_string-IsConsole}
use kados_ng.Console.Pixels.{
  ℤ, Pixel, Screen, present, clear_pixels, render_text_buf, write_fmt, presented,
}
use kados_ng.Console.Draw.{IsScreen, with_pixels, last_color, index_lt}
use kados_ng.Console.Render.{text_pixels, render_lines-Draws}
use kados_ng.Console.Geometry.{geometry, write_string-Keeps}

module _ (text_draw : ℕ → ℤ → ℤ → Color → List Pixel) (char_width char_height : ℕ) where
  abbrev black : FrameBuffer → FrameBuffer
  black fb = with_pixels fb (replicate (length fb.back_buffer) 0)

  -- The screen shows the text of `fb`, and no other word of the memory is written.
  abbrev pub Shows : ℕ → Screen → FrameBuffer → Screen → Type 0
  Shows size_bytes before fb screen =
      ((x y : ℕ)
        → x < fb.width
        → y < fb.height
        → screen (x + y * fb.width)
          ≡ last_color (text_pixels text_draw char_width char_height fb) x y 0)
      × ((i : ℕ) → size_bytes / 4 ≤ i → screen i ≡ before i)

  -- `write_fmt` succeeds, with the text of `write_string`, which the screen then shows.
  abbrev pub Redrawn : ℕ → List ℕ → FrameBuffer → Screen → Type 0
  Redrawn size_bytes bytes fb before =
      (fb' : FrameBuffer) × (write_string bytes fb ≡ (ok tt, fb'))
      × (b : List ℕ) × (screen : Screen) × (write_fmt text_draw char_width char_height size_bytes
            bytes fb before
          ≡ (ok tt, with_pixels fb' b, screen))
      × Shows size_bytes before fb' screen

  redraw_lem :
      (size_bytes : ℕ) (fb : FrameBuffer) (before : Screen)
      → IsConsole fb
      → IsScreen fb
      → length fb.back_buffer ≡ size_bytes / 4
      → (b : List ℕ) × ((clear_pixels >> render_text_buf text_draw char_width char_height) fb
          ≡ (ok tt, with_pixels fb b))
        × Shows size_bytes before fb (present size_bytes (with_pixels fb b) before)
  unfolding render_text_buf
  redraw_lem size_bytes fb before c s e =
      let (b, h, l, r) =
        render_lines-Draws text_draw char_width char_height 25 0 (black fb) c.0
          (rw (length-replicate {A = ℕ} (length fb.back_buffer) 0) s.0, s.1, s.2) (omega arith) in
      (
        b,
        h,
        (
          λ x y hx hy.
              rw
                (
                  lt→ltb (x + y * fb.width) (size_bytes / 4)
                      (omega (arith, e, s.0, index_lt fb.width fb.height x y hx hy)),
                  r x y hx hy,
                  get_or-replicate {A = ℕ} (length fb.back_buffer) 0 0 (x + y * fb.width)
                      (omega (arith, s.0, index_lt fb.width fb.height x y hx hy)),
                )
                refl,
          λ i hi. rw (ltb_of_le i (size_bytes / 4) hi) refl,
        ),
      )

  IsScreen-geometry :
      (fb fb' : FrameBuffer) → geometry fb' ≡ geometry fb → IsScreen fb → IsScreen fb'
  IsScreen-geometry fb fb' e (a, b, c) = (
    rw (ap (λ g. g.0) e, ap (λ g. g.1) e, ap (λ g. g.2) e) a,
    rw (ap (λ g. g.0) e) b,
    rw (ap (λ g. g.1) e) c,
  )

  -- On a console that satisfies its invariant, whose back buffer has a word for each pixel of the
  -- screen and for each word of the framebuffer, `write_fmt` does not panic. It puts the bytes into
  -- the text buffer as `write_string` does, and every pixel of the screen then has the colour that
  -- was drawn last at its place when the characters of this text buffer are drawn row by row, and
  -- is black where none is, whatever the screen showed before. It writes to no memory behind the
  -- framebuffer.
  pub write_fmt-Shows :
      (size_bytes : ℕ) (bytes : List ℕ) (fb : FrameBuffer) (before : Screen)
      → IsConsole fb
      → IsScreen fb
      → length fb.back_buffer ≡ size_bytes / 4
      → Redrawn size_bytes bytes fb before
  unfolding write_fmt
  write_fmt-Shows size_bytes bytes fb before c s e =
      let (fb', w, c') = write_string-IsConsole bytes fb c in
      let kept : geometry fb' ≡ geometry fb =
        ap (λ r. geometry r.1) (sym w) ∙ write_string-Keeps bytes fb in
      let (b, h, shows) =
        redraw_lem size_bytes fb' before c' (IsScreen-geometry fb fb' kept s)
          (ap (λ g. length g.2) kept ∙ e) in
      (
        fb',
        w,
        b,
        present size_bytes (with_pixels fb' b) before,
        rw (w) (ap (λ r. presented text_draw char_width char_height size_bytes r before) h),
        shows,
      )
