-- ===== src/Screen.antt =====
-- 3_Kernel/3_drivers/videoDriver.c: text on the screen. What is drawn is the list of the calls that
-- draw, the last one first.
pub mod Pixels
pub mod Window
pub mod Print
mod Tests
use g21_tp2_so_1c.Base.{
  ℕ, zero, suc, ◌+◌, ◌-◌, ◌*◌, ◌/◌, ◌%◌, ◌^◌, Bool, true, false, not, ◌||◌, ltb, leb, ◌==◌,
  if◌then◌else◌, Option, none, some, List, [], ◌∷◌,
}

abbrev pub window_width : ℕ
window_width = 1024

abbrev pub window_height : ℕ
window_height = 768

abbrev pub border_padding : ℕ
border_padding = 15

abbrev pub vertical_padding : ℕ
vertical_padding = 4

abbrev pub horizontal_padding : ℕ
horizontal_padding = 2

abbrev pub char_width : ℕ
char_width = 8

abbrev pub char_height : ℕ
char_height = 16

abbrev pub white : ℕ
white = 16777215

abbrev pub black : ℕ
black = 0

-- The colour of the cursor.
abbrev pub cursor_color : ℕ
cursor_color = 4294967295

abbrev pub u64_mod : ℕ
u64_mod = 2 ^ 64

abbrev pub u64_add : ℕ → ℕ → ℕ
u64_add a b = (a + b) % u64_mod

abbrev pub u64_sub : ℕ → ℕ → ℕ
u64_sub a b = (a + (u64_mod - b)) % u64_mod

-- `drawRectangle` at x and y, of a width, a height and a colour; `drawChar` of a character at x and y, with
-- its two colours and its scale; and the lines by which the picture moves up.
pub data Draw : Type 0 where
  rectangle : ℕ → ℕ → ℕ → ℕ → ℕ → Draw
  glyph : ℕ → ℕ → ℕ → ℕ → ℕ → ℕ → Draw
  moved_up : ℕ → Draw

pub data CursorMovementType : Type 0 where
  cursor_deleting cursor_typing cursor_newline cursor_moving cursor_previous : CursorMovementType

pub record Screen : Type 0 where
  pub font_scale : ℕ
  pub current_x : ℕ
  pub current_y : ℕ
  pub current_line_position : ℕ
  pub drawn : List Draw

-- The screen as the kernel starts.
abbrev pub blank_screen : Screen
blank_screen = record {
  font_scale = 1;
  current_x = border_padding;
  current_y = border_padding;
  current_line_position = 0;
  drawn = [];
}

abbrev pub draw_rectangle : ℕ → ℕ → ℕ → ℕ → ℕ → Screen → Screen
draw_rectangle x y width height color s = record s {
  drawn = rectangle x y width height color ∷ s.drawn;
}

-- The new cursor, and the old one taken off at an offset.
abbrev pub put_cursor : ℕ → Screen → Screen
put_cursor x_offset s =
    draw_rectangle (u64_add s.current_x x_offset) s.current_y 1 (char_height * s.font_scale) black (
      draw_rectangle (u64_add s.current_x (horizontal_padding / 2)) s.current_y 1
        (char_height * s.font_scale) cursor_color s)

unfoldable pub update_text_cursor : CursorMovementType → Screen → Screen
update_text_cursor cursor_deleting s =
    put_cursor (char_width * s.font_scale + 3 * horizontal_padding / 2) s
update_text_cursor cursor_typing s =
    put_cursor (u64_mod - (char_width * s.font_scale + horizontal_padding / 2)) s
update_text_cursor cursor_newline s = put_cursor (horizontal_padding / 2) s
update_text_cursor cursor_moving s = put_cursor 0 s
update_text_cursor cursor_previous s =
    draw_rectangle (border_padding + horizontal_padding / 2) s.current_y 1
      (char_height * s.font_scale) black s

abbrev pub line_height : Screen → ℕ
line_height s = (char_height + vertical_padding) * s.font_scale

unfoldable pub print_new_line : Screen → Screen
unfolding update_text_cursor
print_new_line s = record (update_text_cursor cursor_newline s) {
  current_x = border_padding;
  current_y = u64_add s.current_y (line_height s);
}

-- The picture moves up by a line.
abbrev pub line_up : Screen → Screen
line_up s = record s {
  current_y = u64_sub s.current_y (line_height s);
  drawn = moved_up (line_height s) ∷ s.drawn;
}

unfoldable pub move_screen_up_if_full : Screen → Screen
move_screen_up_if_full s =
    if leb (window_height - char_height * s.font_scale - border_padding) s.current_y
    then line_up s
    else s

abbrev pub can_delete : Screen → Bool
can_delete s = ltb 0 s.current_line_position

abbrev pub step_back : Screen → Screen
step_back s =
    if leb s.current_x border_padding
    then record (update_text_cursor cursor_previous s) {
      current_y = u64_sub s.current_y (line_height s);
      current_x = window_width - border_padding - (char_width + horizontal_padding) * s.font_scale;
    }
    else record s {
      current_x = u64_sub s.current_x (char_width * s.font_scale + horizontal_padding);
    }

unfoldable pub delete_char : Screen → Screen
unfolding update_text_cursor
delete_char s =
    if not (can_delete s)
    then s
    else let t = step_back s in
      let u =
        draw_rectangle t.current_x t.current_y (char_width * t.font_scale + horizontal_padding)
          (char_height * t.font_scale) black t in
      record (update_text_cursor cursor_deleting u) {
        current_line_position = t.current_line_position - 1;
      }

-- The next line, where the character does not fit in this one.
unfoldable pub make_room : Screen → Screen
make_room s =
    if ltb (window_width - border_padding)
      (u64_add s.current_x (char_width * s.font_scale + horizontal_padding))
    then print_new_line s
    else s

unfoldable pub make_line : Screen → Screen
make_line s =
    if ltb (window_height - border_padding) (u64_add s.current_y char_height)
    then move_screen_up_if_full s
    else s

unfoldable pub type_char : ℕ → ℕ → ℕ → Screen → Screen
unfolding update_text_cursor
type_char c fgcolor bgcolor s = update_text_cursor cursor_typing (record s {
  current_line_position = u64_add s.current_line_position 1;
  drawn =
      glyph c (s.current_x + horizontal_padding) s.current_y fgcolor bgcolor s.font_scale ∷ s.drawn;
  current_x = u64_add s.current_x (char_width * s.font_scale + horizontal_padding);
})

-- A `char` from 128 on is negative.
abbrev pub is_control : ℕ → Bool
is_control c = leb c 31 || leb 128 c

unfoldable pub print_char : ℕ → ℕ → ℕ → Screen → ℕ × Screen
print_char c fgcolor bgcolor s =
    if c == 10
    then (1, print_new_line s)
    else if c == 8
    then (u64_mod - 1, delete_char s)
    else if c == 9
    then (0, s)
    else if is_control c
    then (0, s)
    else (1, type_char c fgcolor bgcolor (make_line (make_room s)))

-- `printStrByLength` over the bytes before a 0, and their number.
unfoldable pub print_str_by_length : List ℕ → ℕ → ℕ → ℕ → Screen → ℕ × Screen
print_str_by_length [] fgcolor bgcolor length s = (0, s)
print_str_by_length (c ∷ cs) fgcolor bgcolor zero s = (0, s)
print_str_by_length (c ∷ cs) fgcolor bgcolor (suc length) s =
    let r = print_char c fgcolor bgcolor s in
    let rest = print_str_by_length cs fgcolor bgcolor length r.1 in
    if c == 0 then (0, s) else (u64_add r.0 rest.0, rest.1)

unfoldable pub clear : Screen → Screen
clear s = record (draw_rectangle 0 0 window_width window_height black s) {
  current_y = border_padding;
}

unfoldable pub set_font_scale : ℕ → Screen → Option Screen
set_font_scale scale s =
    if ltb scale 1 || ltb 2 scale then none else some (clear (record s { font_scale = scale }))

abbrev pub reset_cursor : Screen → Screen
reset_cursor s = record s { current_y = border_padding }

-- The text before a 0.
unfoldable pub print_str : List ℕ → ℕ → ℕ → Screen → Screen
print_str [] fgcolor bgcolor s = s
print_str (c ∷ cs) fgcolor bgcolor s =
    let rest = print_str cs fgcolor bgcolor (print_char c fgcolor bgcolor s).1 in
    if c == 0 then s else rest

abbrev pub print_str_bw : List ℕ → Screen → Screen
print_str_bw cs = print_str cs white black

abbrev pub print_char_bw : ℕ → Screen → Screen
print_char_bw c s = (print_char c white black s).1
