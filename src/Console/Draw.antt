-- ===== src/Console/Draw.antt =====
-- What `draw_iter` of framebuffer.rs leaves in the back buffer.
use native.Mathlib.Nat.{mul-le-mul_right, mul-add-div_right, div-eq_of_lt, mod-eq_of_lt}
use kados_ng.Base.{ℕ, suc, ◌+◌, ◌*◌, ◌/◌, ◌^◌, ◌≤◌, ◌<◌, ◌≡◌, refl, arith, sym, ap, ◌∙◌}
use kados_ng.Base.{
  Bool, true, false, ◌&&◌, List, [], ◌∷◌, ◌++◌, ltb, leb, ◌==◌, lt→ltb, if◌then◌else◌, length, set,
  get_or, get_or-set_self, get_or-set_ne, length-set, Bool-cases, inl, inr,
}
use kados_ng.Mem.Outcome.{ok}
use kados_ng.Paging.Monad.{◌>>◌}
use kados_ng.Console.Buffer.{FrameBuffer, Color, Edit, set_pixel}
use kados_ng.Console.Pixels.{ℤ, pos, negsuc, Pixel, contains, draw_pixel, draw_iter}

-- The back buffer has room for the pixels of the screen, whose sides are `i32`s.
abbrev pub IsScreen : FrameBuffer → Type 0
IsScreen fb =
    (fb.width * fb.height ≤ length fb.back_buffer) × (fb.width < 2 ^ 31) × (fb.height < 2 ^ 31)

abbrev pub with_pixels : FrameBuffer → List ℕ → FrameBuffer
with_pixels fb b = record fb { back_buffer = b }

-- Whether a pixel is drawn at these coordinates.
abbrev pub lies_at : Pixel → ℕ → ℕ → Bool
lies_at p x y = at (p.x) x && at (p.y) y
  where
    at : ℤ → ℕ → Bool
    at (pos i) n = i == n
    at (negsuc i) n = false

-- The colour of the last of the pixels at these coordinates, if there is one.
abbrev pub last_color : List Pixel → ℕ → ℕ → Color → Color
last_color [] x y d = d
last_color (p ∷ ps) x y d = last_color ps x y (if lies_at p x y then p.color else d)

pub last_color-append :
    (ps qs : List Pixel) (x y : ℕ) (d : Color)
    → last_color (ps ++ qs) x y d ≡ last_color qs x y (last_color ps x y d)
last_color-append [] qs x y d = refl
last_color-append (p ∷ ps) qs x y d =
    last_color-append ps qs x y (if lies_at p x y then p.color else d)

-- The edit draws these pixels: it only changes the back buffer, and each pixel of the screen has the
-- colour that was drawn there last.
abbrev pub Draws : List Pixel → Edit → FrameBuffer → Type 0
Draws ps e fb =
    (b : List ℕ) × (e fb ≡ (ok tt, with_pixels fb b))
    × (length b ≡ length fb.back_buffer)
    × ((x y : ℕ)
        → x < fb.width
        → y < fb.height
        → get_or b (x + y * fb.width) 0
          ≡ last_color ps x y (get_or fb.back_buffer (x + y * fb.width) 0))

pub Draws-seq :
    (ps qs : List Pixel) (e f : Edit) (fb : FrameBuffer)
    → Draws ps e fb
    → ((b : List ℕ) → length b ≡ length fb.back_buffer → Draws qs f (with_pixels fb b))
    → Draws (ps ++ qs) (e >> f) fb
Draws-seq ps qs e f fb (b, h, l, r) k =
    let (b', h', l', r') = k b l in
    (
      b',
      rw (h) h',
      l' ∙ l,
      λ x y hx hy.
          rw
            (
              last_color-append ps qs x y (get_or fb.back_buffer (x + y * fb.width) 0),
              sym (r x y hx hy),
            )
            (r' x y hx hy),
    )

pub index_lt : (w h x y : ℕ) → x < w → y < h → x + y * w < w * h
index_lt w h x y hx hy = omega (arith, mul-le-mul_right {m = suc y} {n = h} w (omega arith))

index_row : (w x y : ℕ) → x < w → (y * w + x) / w ≡ y
index_row w x y h = mul-add-div_right (omega arith) y x ∙ omega (arith, div-eq_of_lt h)

index-ne : (w x y x' y' : ℕ) → x < w → x' < w → (x + y * w ≡ x' + y' * w) → (x ≡ x') × (y ≡ y')
index-ne w x y x' y' h h' e = (rows_agree, same)
  where
    same : y ≡ y'
    same = sym (index_row w x y h) ∙ ap (λ i. i / w) (omega (arith, e)) ∙ index_row w x' y' h'

    rows_agree : x ≡ x'
    rows_agree = omega (arith, e, ap (λ i. i * w) same)

contains-ltb : (w i : ℕ) → w < 2 ^ 31 → contains w (pos i) ≡ ltb i w
contains-ltb w i h = rw (mod-eq_of_lt {n = w} {m = 2 ^ 32} (omega arith), lt→ltb w (2 ^ 31) h) refl

and_false : (b : Bool) → (b && false) ≡ false
and_false true = refl
and_false false = refl

leb_of_lt : (a b : ℕ) → b < a → leb a b ≡ false
leb_of_lt a b h = ground arith

-- A pixel that is set in the back buffer, and every other one.
set_read :
    (fb : FrameBuffer) (x y x' y' c : ℕ)
    → IsScreen fb
    → x < fb.width
    → y < fb.height
    → x' < fb.width
    → y' < fb.height
    → get_or (set fb.back_buffer (x + y * fb.width) c) (x' + y' * fb.width) 0
      ≡ (if (x == x') && (y == y') then c else get_or fb.back_buffer (x' + y' * fb.width) 0)
set_read fb x y x' y' c s hx hy hx' hy' = elim (Bool-cases ((x == x') && (y == y'))) [
  | inl e ↦
      rw (e, sym (at_x e), sym (at_y e))
        (get_or-set_self fb.back_buffer (x + y * fb.width) c 0
          (omega (arith, s.0, index_lt fb.width fb.height x y hx hy)))
  | inr e ↦ rw (e) (
      get_or-set_ne fb.back_buffer (x + y * fb.width) (x' + y' * fb.width) c 0 (λ same.
        let (ex, ey) = index-ne fb.width x y x' y' hx hx' same in ground (arith, e, ex, ey)))
]
  where
    at_x : ((x == x') && (y == y')) ≡ true → x ≡ x'
    at_x e = ground (arith, e)

    at_y : ((x == x') && (y == y')) ≡ true → y ≡ y'
    at_y e = ground (arith, e)

abbrev pixel : ℤ → ℤ → Color → Pixel
pixel x y c = record { x = x; y = y; color = c }

Draws-none :
    (p : Pixel) (fb : FrameBuffer)
    → draw_pixel p fb ≡ (ok tt, fb)
    → ((x y : ℕ) → x < fb.width → y < fb.height → lies_at p x y ≡ false)
    → Draws (p ∷ []) (draw_pixel p) fb
Draws-none p fb h apart = (fb.back_buffer, h, refl, λ x y hx hy. rw (apart x y hx hy) refl)

set_pixel-set :
    (x y c : ℕ) (fb : FrameBuffer)
    → IsScreen fb
    → x < fb.width
    → y < fb.height
    → set_pixel x y c fb ≡ (ok tt, with_pixels fb (set fb.back_buffer (x + y * fb.width) c))
unfolding set_pixel
set_pixel-set x y c fb s hx hy =
    rw
      (
        leb_of_lt fb.width x hx,
        leb_of_lt fb.height y hy,
        lt→ltb (x + y * fb.width) (length fb.back_buffer)
            (omega (arith, s.0, index_lt fb.width fb.height x y hx hy)),
      )
      refl

draw_at-Draws :
    (x y : ℕ) (c : Color) (fb : FrameBuffer)
    → IsScreen fb
    → Draws (pixel (pos x) (pos y) c ∷ []) (draw_pixel (pixel (pos x) (pos y) c)) fb
draw_at-Draws x y c fb s = elim (Bool-cases (ltb x fb.width && ltb y fb.height)) [
  | inl e ↦ (
    set fb.back_buffer (x + y * fb.width) c,
    rw (contains-ltb fb.width x s.1, contains-ltb fb.height y s.2, e)
        (set_pixel-set x y c fb s (ground (arith, e)) (ground (arith, e))),
    length-set fb.back_buffer (x + y * fb.width) c,
    λ x' y' hx hy. set_read fb x y x' y' c s (ground (arith, e)) (ground (arith, e)) hx hy,
  )
  | inr e ↦
      Draws-none (pixel (pos x) (pos y) c) fb
        (rw (contains-ltb fb.width x s.1, contains-ltb fb.height y s.2, e) refl)
        (λ x' y' hx hy. ground (arith, e))
]

draw_pixel-Draws : (p : Pixel) (fb : FrameBuffer) → IsScreen fb → Draws (p ∷ []) (draw_pixel p) fb
draw_pixel-Draws p fb s = cases p.x p.y
  where
    cases : (px py : ℤ) → Draws ((pixel px py p.color) ∷ []) (draw_pixel (pixel px py p.color)) fb
    cases (pos x) (pos y) = draw_at-Draws x y p.color fb s
    cases (pos x) (negsuc y) =
        Draws-none (pixel (pos x) (negsuc y) p.color) fb
          (rw (and_false (contains fb.width (pos x))) refl) (λ x' y' hx hy. and_false (x == x'))
    cases (negsuc x) py = Draws-none (pixel (negsuc x) py p.color) fb refl (λ x' y' hx hy. refl)

pub draw_iter-Draws :
    (ps : List Pixel) (fb : FrameBuffer) → IsScreen fb → Draws ps (draw_iter ps) fb
unfolding draw_iter
draw_iter-Draws [] fb s = (fb.back_buffer, refl, refl, λ x y hx hy. refl)
draw_iter-Draws (p ∷ ps) fb s =
    Draws-seq (p ∷ []) ps (draw_pixel p) (draw_iter ps) fb (draw_pixel-Draws p fb s)
      (λ b l. draw_iter-Draws ps (with_pixels fb b) (rw (l) s.0, s.1, s.2))
