-- ===== src/Screen/Window.antt =====
-- videoDriver.c: where the text is drawn.
use g21_tp2_so_1c.Base.{
  ℕ, ◌+◌, ◌-◌, ◌*◌, ◌%◌, ◌<◌, ◌≤◌, ◌≡◌, Bool, true, false, refl, arith, ltb, leb, List, [], ◌∷◌,
  by_bool, ℕ_discrete,
}
use g21_tp2_so_1c.Screen.Pixels.{Inside, Inside-OnScreen, AllOnScreen}
use g21_tp2_so_1c.Screen.{
  Draw, Screen, update_text_cursor, print_new_line, move_screen_up_if_full, make_room, make_line,
  type_char, u64_add, line_up, window_height,
}

abbrev pub AllInside : List Draw → Type 0
AllInside [] = Unit {0}
AllInside (d ∷ ds) = Inside d × AllInside ds

pub AllInside-AllOnScreen : (ds : List Draw) → AllInside ds → AllOnScreen ds
AllInside-AllOnScreen [] h = tt
AllInside-AllOnScreen (d ∷ ds) h = (Inside-OnScreen d h.0, AllInside-AllOnScreen ds h.1)

-- Where the cursor may stand. In the large font the lines are 40 apart from 15 on: between them the
-- lowest line would reach below the window.
-- `fresh` is whether the line has nothing on it yet, and may lie below the window.
pub record Placed (fresh : Bool) (s : Screen) : Type 0 where
  pub scale_low : 1 ≤ s.font_scale
  pub scale_high : s.font_scale ≤ 2
  pub left_of : 15 ≤ s.current_x
  pub right_of : s.current_x ≤ 1009
  pub at_left : fresh ≡ true → s.current_x ≡ 15
  pub top : 15 ≤ s.current_y
  pub aligned : s.font_scale ≡ 2 → s.current_y % 40 ≡ 15
  pub low : s.current_y ≤ 737 + 20 * s.font_scale
  pub bottom : fresh ≡ false → s.current_y ≤ 737
  pub inside : AllInside s.drawn

tall :
    (scale y : ℕ)
    → 1 ≤ scale
    → scale ≤ 2
    → (scale ≡ 2 → y % 40 ≡ 15)
    → y ≤ 737
    → y + 16 * scale < window_height
tall scale y a b h l = elim (ℕ_discrete scale 2) [
  | yes e ↦ omega (arith, h e)
  | no ne ↦ omega (arith, ne)
]

pub print_new_line-Placed : (s : Screen) → Placed false s → Placed true (print_new_line s)
unfolding print_new_line update_text_cursor
print_new_line-Placed s p =
    let y : s.current_y ≤ 737 = p.bottom refl in
    let high : s.current_y + 16 * s.font_scale < window_height =
      tall s.font_scale s.current_y p.scale_low p.scale_high p.aligned y in
    record {
      scale_low = p.scale_low;
      scale_high = p.scale_high;
      left_of = omega arith;
      right_of = omega arith;
      at_left = λ e. refl;
      top = omega (arith, p.top, p.scale_high);
      aligned = λ e. omega (arith, p.aligned e);
      low = omega (arith, p.scale_high);
      bottom = λ e. ground (arith, e);
      inside = ((omega (arith, p.right_of), high), ((omega (arith, p.right_of), high), p.inside));
    }

-- There is room for a character in the line, which lies at most `extra` times the scale too low.
pub record Roomy (extra : ℕ) (s : Screen) : Type 0 where
  pub scale_low : 1 ≤ s.font_scale
  pub scale_high : s.font_scale ≤ 2
  pub left_of : 15 ≤ s.current_x
  pub room : s.current_x + 8 * s.font_scale + 2 ≤ 1009
  pub top : 15 ≤ s.current_y
  pub aligned : s.font_scale ≡ 2 → s.current_y % 40 ≡ 15
  pub low : s.current_y ≤ 737 + extra * s.font_scale
  pub inside : AllInside s.drawn

Placed-Roomy :
    (b : Bool) (s : Screen) → s.current_x + 8 * s.font_scale + 2 ≤ 1009 → Placed b s → Roomy 20 s
Placed-Roomy b s h p = record {
  scale_low = p.scale_low;
  scale_high = p.scale_high;
  left_of = p.left_of;
  room = h;
  top = p.top;
  aligned = p.aligned;
  low = p.low;
  inside = p.inside;
}

new_line_room : (s : Screen) → Placed true s → s.current_x + 8 * s.font_scale + 2 ≤ 1009
new_line_room s p = omega (arith, p.at_left refl, p.scale_high)

pub make_room-Roomy : (b : Bool) (s : Screen) → Placed b s → Roomy 20 (make_room s)
unfolding make_room
make_room-Roomy true s p =
    by_bool (Roomy 20) _ (print_new_line s) s
      (λ e. absurd (ground (arith, e, p.at_left refl, p.scale_high, p.scale_low)))
      (λ e. Placed-Roomy true s (new_line_room s p) p)
make_room-Roomy false s p =
    by_bool (Roomy 20) _ (print_new_line s) s
      (λ e.
        let q = print_new_line-Placed s p in
        Placed-Roomy true (print_new_line s) (new_line_room (print_new_line s) q) q)
      (λ e. Placed-Roomy false s (ground (arith, e, p.right_of, p.scale_high)) p)

pub make_line-Roomy : (s : Screen) → Roomy 20 s → Roomy 0 (make_line s)
unfolding make_line move_screen_up_if_full
make_line-Roomy s p =
    by_bool (Roomy 0) (ltb 753 (u64_add s.current_y 16)) _ s
      (λ e.
        by_bool (Roomy 0) (leb (768 - 16 * s.font_scale - 15) s.current_y) (line_up s) s
          (λ f. record {
            scale_low = p.scale_low;
            scale_high = p.scale_high;
            left_of = p.left_of;
            room = p.room;
            top = ground (arith, e, p.scale_high);
            aligned = λ q. ground (arith, e, q, p.aligned q);
            low = ground (arith, e, p.low, p.scale_high);
            inside = (omega (arith, p.scale_high), p.inside);
          })
          (λ f. absurd (ground (arith, e, f, p.low, p.scale_high, p.scale_low))))
      (λ e. record {
        scale_low = p.scale_low;
        scale_high = p.scale_high;
        left_of = p.left_of;
        room = p.room;
        top = p.top;
        aligned = p.aligned;
        low = ground (arith, e, p.low, p.scale_high);
        inside = p.inside;
      })

pub type_char-Placed :
    (c fgcolor bgcolor : ℕ) (s : Screen) → Roomy 0 s → Placed false (type_char c fgcolor bgcolor s)
unfolding type_char update_text_cursor
type_char-Placed c fgcolor bgcolor s p =
    let high : s.current_y + 16 * s.font_scale < window_height =
      tall s.font_scale s.current_y p.scale_low p.scale_high p.aligned (omega (arith, p.low)) in
    record {
      scale_low = p.scale_low;
      scale_high = p.scale_high;
      left_of = omega (arith, p.left_of, p.room);
      right_of = omega (arith, p.room);
      at_left = λ e. ground (arith, e);
      top = p.top;
      aligned = p.aligned;
      low = omega (arith, p.low);
      bottom = λ e. omega (arith, p.low);
      inside = (
        (omega (arith, p.room, p.left_of), high),
        ((omega (arith, p.room), high), ((omega (arith, p.room), omega (arith, high)), p.inside)),
      );
    }
