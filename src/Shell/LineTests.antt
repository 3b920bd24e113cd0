-- ===== src/Shell/LineTests.antt =====
-- shellFunctions.c, stdLib.c: lines, numbers and texts, with their theorems at concrete inputs.
use g21_tp2_so_1c.Base.{
  ℕ, ◌+◌, List, [], ◌∷◌, ◌++◌, true, false, none, some, ◌≡◌, refl, arith, map, replicate, inl,
}
use g21_tp2_so_1c.Text.{strcmp}
use g21_tp2_so_1c.Text.Words.{strchr}
use g21_tp2_so_1c.Shell.Numbers.{to_decimal, from_decimal, digits_in, swaps}
use g21_tp2_so_1c.Shell.Numbers.Convert.{to_decimal-from_decimal}
use g21_tp2_so_1c.Shell.Commands.{fill_command_and_args, scan}
use g21_tp2_so_1c.Shell.Commands.Words.{fill_command_and_args-joined, joined, line_end}
use g21_tp2_so_1c.Shell.Pipeline.{codes, Answers, get_cmd_input, run_piped, start_from, lookup_in}
use g21_tp2_so_1c.Shell.Pipeline.Ends.{get_cmd_input-Ends, in_foreground, any, is_end}
use g21_tp2_so_1c.Shell.Clock.{to_utc_minus3}
use g21_tp2_so_1c.Shell.Clock.Shift.{three_later-to_utc_minus3, three_later, IsDate}
use g21_tp2_so_1c.Shell.Printf.{
  print_args, scanf, args_to_buffer, args_from, int, number, type_to_buffer, convert_to_base_string,
  hex, char, str,
}
use g21_tp2_so_1c.Shell.Printf.Read.{ints}
use g21_tp2_so_1c.Shell.Printf.Buffers.{scanf-print_args}
use g21_tp2_so_1c.Shell.Lines.{gets, newline}
use g21_tp2_so_1c.Shell.Lines.Edited.{gets-Line, Line}
use g21_tp2_so_1c.Shell.Streams.{filter, kept_from}

to_decimal-from_decimal_example : to_decimal (from_decimal 1000 16) 16 ≡ 1000
to_decimal-from_decimal_example =
    to_decimal-from_decimal 1000 16 (omega arith) (omega arith) (omega arith)

from_decimal_runs : from_decimal 1000 16 ≡ codes "3E8"
unfolding from_decimal digits_in swaps
from_decimal_runs = refl

abbrev kill_line : List ℕ
kill_line =
    replicate 2 32 ++ (codes "kill" ++ joined 32 (codes "3" ∷ codes "4" ∷ []) (line_end false))

fill_command_and_args-joined_example :
    fill_command_and_args kill_line
    ≡ record { command = codes "kill"; args = codes "3" ∷ codes "4" ∷ []; foreground = false }
fill_command_and_args-joined_example =
    fill_command_and_args-joined 2 (codes "kill") (codes "3" ∷ codes "4" ∷ []) false (omega arith)
      (omega arith) (omega arith)

-- With five arguments the `&` becomes part of the last of them.
five_and_background : fill_command_and_args (codes "a b c d e f &") ≡ record {
  command = codes "a";
  args = codes "b" ∷ codes "c" ∷ codes "d" ∷ codes "e" ∷ codes "f &" ∷ [];
  foreground = true;
}
unfolding fill_command_and_args scan
five_and_background = refl

abbrev kernel : Answers
kernel = record { pipe = some (20, 21); new_process = λ i. some (i + 5); builtin = λ n s. 0 }

get_cmd_input-Ends_example : any (is_end 5) (get_cmd_input kernel (codes "cat | wc")).0 ≡ true
unfolding get_cmd_input run_piped start_from fill_command_and_args scan strchr lookup_in strcmp
    in_foreground
get_cmd_input-Ends_example = get_cmd_input-Ends kernel (codes "cat | wc") 5 refl refl refl

three_later-to_utc_minus3_example :
    IsDate (
      to_utc_minus3 (record { seconds = 0; minutes = 30; hour = 1; day = 1; month = 3; year = 24 }))
    × (three_later (
          to_utc_minus3
            (record { seconds = 0; minutes = 30; hour = 1; day = 1; month = 3; year = 24 }))
        ≡ record { seconds = 0; minutes = 30; hour = 1; day = 1; month = 3; year = 24 })
three_later-to_utc_minus3_example =
    three_later-to_utc_minus3
      (record { seconds = 0; minutes = 30; hour = 1; day = 1; month = 3; year = 24 }) (omega arith)
      (inl (omega arith))

scanf-print_args_example :
    (s : List ℕ) × (print_args (ints (7 ∷ 120 ∷ [])) (map int (7 ∷ 120 ∷ [])) ≡ some s)
    × (scanf (ints (7 ∷ 120 ∷ [])) (s ++ (newline ∷ codes "q"))
        ≡ some (map number (7 ∷ 120 ∷ []), codes "q"))
scanf-print_args_example = scanf-print_args (7 ∷ 120 ∷ []) (codes "q") (omega arith) (omega arith)

printf_runs :
    args_to_buffer (codes "n %d: %x%c%s %q") (int 3 ∷ hex 255 ∷ char 33 ∷ str (codes "ab") ∷ [])
    ≡ some (codes "n 3: 0xFF!ab ")
unfolding args_to_buffer args_from type_to_buffer convert_to_base_string digits_in
printf_runs = refl

gets-Line_example : Line 4 [] (gets 4 (codes "abcde" ++ (newline ∷ [])))
gets-Line_example = gets-Line 4 (codes "abcde") [] (omega arith)

filter_runs : filter none (codes "ab  eu x o") ≡ codes "a eu o"
unfolding filter kept_from strcmp
filter_runs = refl
