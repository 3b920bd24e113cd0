-- ===== src/Screen/Pixels.antt =====
-- videoDriver.c and font.c: the pixels that a call draws, in the order of its loops.
use g21_tp2_so_1c.Base.{ℕ, zero, suc, ◌+◌, ◌*◌, ◌<◌, ◌≤◌, arith, List, [], ◌∷◌, ◌++◌}
use g21_tp2_so_1c.Screen.{
  Draw, rectangle, glyph, moved_up, window_width, window_height, char_width, char_height,
}

-- `n` pixels downwards from x and y.
unfoldable pub column : ℕ → ℕ → ℕ → List (ℕ × ℕ)
column x y zero = []
column x y (suc n) = (x, y) ∷ column x (y + 1) n

-- `drawRectangle`, whose loops take the width and the height in.
unfoldable pub columns : ℕ → ℕ → ℕ → ℕ → List (ℕ × ℕ)
columns x y zero h = []
columns x y (suc w) h = column x y h ++ columns (x + 1) y w h

-- `n` pixels to the right.
unfoldable pub row : ℕ → ℕ → ℕ → List (ℕ × ℕ)
row x y zero = []
row x y (suc n) = (x, y) ∷ row (x + 1) y n

-- A pixel of a character, of `scale` by `scale`, of which `n` rows are left.
unfoldable pub scaled_pixel : ℕ → ℕ → ℕ → ℕ → List (ℕ × ℕ)
scaled_pixel x y scale zero = []
scaled_pixel x y scale (suc n) = row x y scale ++ scaled_pixel x (y + 1) scale n

unfoldable pub glyph_row : ℕ → ℕ → ℕ → ℕ → List (ℕ × ℕ)
glyph_row x y scale zero = []
glyph_row x y scale (suc n) = scaled_pixel x y scale scale ++ glyph_row (x + scale) y scale n

unfoldable pub draw_char : ℕ → ℕ → ℕ → ℕ → List (ℕ × ℕ)
draw_char x y scale zero = []
draw_char x y scale (suc n) = glyph_row x y scale char_width ++ draw_char x (y + scale) scale n

unfoldable pub pixels : Draw → List (ℕ × ℕ)
pixels (rectangle x y width height color) = columns x y (width + 1) (height + 1)
pixels (glyph c x y fgcolor bgcolor scale) = draw_char x y scale char_height
pixels (moved_up n) = []

abbrev pub OnScreen : List (ℕ × ℕ) → Type 0
OnScreen [] = Unit {0}
OnScreen (p ∷ ps) = ((p.0 < window_width) × (p.1 < window_height)) × OnScreen ps

-- Every pixel of every call lies in the window.
abbrev pub AllOnScreen : List Draw → Type 0
AllOnScreen [] = Unit {0}
AllOnScreen (d ∷ ds) = OnScreen (pixels d) × AllOnScreen ds

OnScreen-append : (ps qs : List (ℕ × ℕ)) → OnScreen ps → OnScreen qs → OnScreen (ps ++ qs)
OnScreen-append [] qs h k = k
OnScreen-append (p ∷ ps) qs h k = (h.0, OnScreen-append ps qs h.1 k)

column-OnScreen : (x y n : ℕ) → x < window_width → y + n ≤ window_height → OnScreen (column x y n)
unfolding column
column-OnScreen x y zero p q = tt
column-OnScreen x y (suc n) p q = ((p, omega arith), column-OnScreen x (y + 1) n p (omega arith))

columns-OnScreen :
    (x y w h : ℕ) → x + w ≤ window_width → y + h ≤ window_height → OnScreen (columns x y w h)
unfolding columns
columns-OnScreen x y zero h p q = tt
columns-OnScreen x y (suc w) h p q =
    OnScreen-append (column x y h) _ (column-OnScreen x y h (omega arith) q)
      (columns-OnScreen (x + 1) y w h (omega arith) q)

row-OnScreen : (x y n : ℕ) → x + n ≤ window_width → y < window_height → OnScreen (row x y n)
unfolding row
row-OnScreen x y zero p q = tt
row-OnScreen x y (suc n) p q = ((omega arith, q), row-OnScreen (x + 1) y n (omega arith) q)

scaled_pixel-OnScreen :
    (x y scale n : ℕ)
    → x + scale ≤ window_width
    → y + n ≤ window_height
    → OnScreen (scaled_pixel x y scale n)
unfolding scaled_pixel
scaled_pixel-OnScreen x y scale zero p q = tt
scaled_pixel-OnScreen x y scale (suc n) p q =
    OnScreen-append (row x y scale) _ (row-OnScreen x y scale p (omega arith))
      (scaled_pixel-OnScreen x (y + 1) scale n p (omega arith))

glyph_row-OnScreen :
    (x y scale n : ℕ)
    → x + n * scale ≤ window_width
    → y + scale ≤ window_height
    → OnScreen (glyph_row x y scale n)
unfolding glyph_row
glyph_row-OnScreen x y scale zero p q = tt
glyph_row-OnScreen x y scale (suc n) p q =
    OnScreen-append (scaled_pixel x y scale scale) _
      (scaled_pixel-OnScreen x y scale scale (grind arith) q)
      (glyph_row-OnScreen (x + scale) y scale n (grind arith) q)

draw_char-OnScreen :
    (x y scale n : ℕ)
    → x + 8 * scale ≤ window_width
    → y + n * scale ≤ window_height
    → OnScreen (draw_char x y scale n)
unfolding draw_char
draw_char-OnScreen x y scale zero p q = tt
draw_char-OnScreen x y scale (suc n) p q =
    OnScreen-append (glyph_row x y scale char_width) _
      (glyph_row-OnScreen x y scale char_width p (grind arith))
      (draw_char-OnScreen x (y + scale) scale n p (grind arith))

-- The place of a call on the screen: a rectangle has one column and one row more than its width and its
-- height.
abbrev pub Inside : Draw → Type 0
Inside (rectangle x y width height color) =
    (x + width < window_width) × (y + height < window_height)
Inside (glyph c x y fgcolor bgcolor scale) =
    (x + 8 * scale ≤ window_width) × (y + 16 * scale ≤ window_height)
Inside (moved_up n) = n ≤ window_height

pub Inside-OnScreen : (d : Draw) → Inside d → OnScreen (pixels d)
unfolding pixels
Inside-OnScreen (rectangle x y width height color) h =
    columns-OnScreen x y (width + 1) (height + 1) (omega (arith, h.0)) (omega (arith, h.1))
Inside-OnScreen (glyph c x y fgcolor bgcolor scale) h =
    draw_char-OnScreen x y scale char_height h.0 h.1
Inside-OnScreen (moved_up n) h = tt
