-- ===== src/Screen/Tests.antt =====
-- videoDriver.c: texts on the screen.
use g21_tp2_so_1c.Base.{◌≡◌, ◌-◌, ◌^◌, ℕ, refl, arith, List, [], ◌∷◌, ◌++◌, replicate}
use g21_tp2_so_1c.Screen.{
  print_str, delete_char, blank_screen, clear, print_str_by_length, print_char, print_new_line,
  move_screen_up_if_full, make_room, make_line, type_char, update_text_cursor, white, black,
}
use g21_tp2_so_1c.Screen.Window.{AllInside}

-- Four lines, the second of them long.
abbrev text : List ℕ
text = 72 ∷ 105 ∷ 10 ∷ replicate 150 97 ++ 10 ∷ 98 ∷ []

-- `clear` fills a column and a row more than the window has.
clear_outside : ¬ AllInside (clear blank_screen).drawn
unfolding clear
clear_outside a = omega (arith, a.0.0)

-- The picture moves up by one line only, so after empty lines a character is drawn below the window.
below :
    ¬ AllInside
      (print_str_by_length (replicate 39 10 ++ 97 ∷ []) white black 400 blank_screen).1.drawn
unfolding print_str_by_length print_char print_new_line make_room make_line move_screen_up_if_full
    type_char update_text_cursor
below a = omega (arith, a.1.1.0.1)

-- After `clear` the characters of the lines before can still be deleted: the line wraps below 0.
abbrev two_lines : List ℕ
two_lines = 97 ∷ 10 ∷ 97 ∷ []

clear_then_delete :
    (print_str
      (8 ∷ 8 ∷ [])
      white
      black
      (clear (print_str two_lines white black blank_screen))).current_y
    ≡ 2 ^ 64 - 5
unfolding print_str print_char print_new_line delete_char clear make_room make_line type_char
    update_text_cursor
clear_then_delete = refl

-- In the large font, three lines of which all but 54 characters are deleted.
long_delete :
    (print_str
      (replicate 57 8)
      white
      black
      (print_str (replicate 111 97) white black (record blank_screen { font_scale = 2 }))).current_x
    ≡ 2 ^ 64 - 1
unfolding print_str print_char print_new_line delete_char make_room make_line type_char
    update_text_cursor
long_delete = refl
