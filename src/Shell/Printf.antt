-- ===== src/Shell/Printf.antt =====
-- 4_Userland/shellCodeModule/2_libraries/stdLib.c and strLib.c: formatted output and input. A string is
-- the list of its bytes before the terminator, an `int` its 32-bit pattern.
pub mod Read
pub mod Buffers
use g21_tp2_so_1c.Base.{
  ℕ, zero, suc, ◌+◌, ◌-◌, ◌*◌, ◌/◌, ◌%◌, ◌^◌, List, [], ◌∷◌, ◌++◌, Bool, true, false, not, ◌&&◌,
  ◌||◌, ltb, leb, length, ◌==◌, if◌then◌else◌, Option, none, some,
}
use mathlib.Core.List.{reverse}
use g21_tp2_so_1c.Text.Words.{is_number}
use g21_tp2_so_1c.Shell.Numbers.{digits_in}

abbrev pub is_negative : ℕ → Bool
is_negative n = leb (2 ^ 31) n

abbrev pub prefix_of : ℕ → List ℕ
prefix_of base = if base == 16 then b'0' ∷ b'x' ∷ [] else if base == 2 then b'0' ∷ b'b' ∷ [] else []

-- What is written into the buffer. `none` is the result -1 of a base that is not from 2 to 16, and a
-- negative number in a base other than ten, whose digits are looked up before the table. The sign of a
-- number in base ten stands first in the temporary buffer, which is copied backwards.
unfoldable pub convert_to_base_string : ℕ → ℕ → Option (List ℕ)
convert_to_base_string number base =
    if ltb base 2 || ltb 16 base
    then none
    else if number == 0
    then some (prefix_of base ++ (b'0' ∷ []))
    else if not (is_negative number)
    then some (prefix_of base ++ reverse (digits_in base 31 number))
    else if base == 10
    then some (reverse (b'-' ∷ digits_in base 31 (2 ^ 32 - number)))
    else none

-- The variable arguments.
pub data Arg : Type 0 where
  int : ℕ → Arg
  hex : ℕ → Arg
  char : ℕ → Arg
  str : List ℕ → Arg

abbrev pub int_text : ℕ → Option (List ℕ)
int_text val =
    if is_negative val
    then elim (convert_to_base_string (2 ^ 32 - val) 10) [ none ↦ none | some s ↦ some (b'-' ∷ s) ]
    else convert_to_base_string val 10

-- What one specifier appends, of an `int` above -2^31; a `uint64_t` is cut to an `int` on the way. `none` where the argument is
-- not of its type.
unfoldable pub type_to_buffer : ℕ → Arg → Option (List ℕ)
type_to_buffer spec (int val) = if spec == b'd' then int_text val else none
type_to_buffer spec (hex val) =
    if spec == b'x' then convert_to_base_string (val % 2 ^ 32) 16 else none
type_to_buffer spec (char c) = if spec == b'c' then some ((c % 256) ∷ []) else none
type_to_buffer spec (str s) = if spec == b's' then some s else none

abbrev pub takes_argument : ℕ → Bool
takes_argument spec = spec == b'd' || (spec == b'x' || (spec == b'c' || spec == b's'))

abbrev pub also : List ℕ → Option (List ℕ) → Option (List ℕ)
also s none = none
also s (some t) = some (s ++ t)

-- The format from a `%` on, with the byte after it: `none` at the end, where the `%` is copied.
abbrev pub specifier : List ℕ → Option ℕ
specifier [] = none
specifier (c ∷ s) = some c

-- The loop of `argsToBuffer`, by the length of the format; an unknown specifier is dropped.
unfoldable pub args_from : ℕ → List ℕ → List Arg → Option (List ℕ)
args_from zero fmt args = some []
args_from (suc f) [] args = some []
args_from (suc f) (c ∷ []) args = also (c ∷ []) (args_from f [] args)
args_from (suc f) (c ∷ d ∷ s) args = elim (c == b'%') [
  | false ↦ also (c ∷ []) (args_from f (d ∷ s) args)
  | true ↦ elim (takes_argument d) [
    | false ↦ args_from f s args
    | true ↦ elim args [
      | [] ↦ none
      | a ∷ rest ↦ elim (type_to_buffer d a) [ none ↦ none | some t ↦ also t (args_from f s rest) ]
    ]
  ]
]

unfoldable pub args_to_buffer : List ℕ → List Arg → Option (List ℕ)
args_to_buffer fmt args = args_from (length fmt) fmt args

abbrev pub buffer_size : ℕ
buffer_size = 1024

-- `none` is also a text that is written past the end of the buffer.
abbrev pub in_buffer : Option (List ℕ) → Option (List ℕ)
in_buffer none = none
in_buffer (some s) = if leb (length s) buffer_size then some s else none

-- `printArgs`: the text that goes to `sys_write`.
unfoldable pub print_args : List ℕ → List Arg → Option (List ℕ)
print_args fmt args = in_buffer (args_to_buffer fmt args)

-- What `scanf` stores.
pub data Value : Type 0 where
  number : ℕ → Value
  word : List ℕ → Value

-- The digits at the start of the line, over 32 bits, and the rest.
unfoldable pub scan_int : List ℕ → ℕ → ℕ × List ℕ
scan_int [] n = (n, [])
scan_int (c ∷ s) n = elim (is_number c) [
  | true ↦ scan_int s ((n * 10 + (c - b'0')) % 2 ^ 32)
  | false ↦ (n, c ∷ s)
]

-- The bytes up to a blank or a terminator, and the rest.
unfoldable pub scan_word : List ℕ → List ℕ × List ℕ
scan_word [] = ([], [])
scan_word (c ∷ s) = let r = scan_word s in if c == 32 || c == 0 then ([], c ∷ s) else (c ∷ r.0, r.1)

abbrev pub first : List ℕ → ℕ
first [] = 0
first (c ∷ s) = c

abbrev pub tail : List ℕ → List ℕ
tail [] = []
tail (c ∷ s) = s

-- The loop of `scanf` over its format, on the line that it has read. A format that ends in a `%` is
-- outside the model: the code goes on past its terminator.
unfoldable pub scan_from : List ℕ → List ℕ → List Value
scan_from [] line = []
scan_from (c ∷ []) line = []
scan_from (c ∷ d ∷ fmt) line = elim (c == b'%') [
  | true ↦ elim (d == b'd') [
    | true ↦ let r = scan_int line 0 in number r.0 ∷ scan_from fmt r.1
    | false ↦ elim (d == b's') [
      | true ↦ let r = scan_word line in word r.0 ∷ scan_from fmt r.1
      | false ↦ scan_from fmt line
    ]
  ]
  | false ↦ elim (c == first line) [ true ↦ scan_from (d ∷ fmt) (tail line) | false ↦ [] ]
]

-- The loop of `scanf` that reads a line: the bytes before the newline, or before the end of the input,
-- and the input that is left.
unfoldable pub read_line : List ℕ → List ℕ × List ℕ
read_line [] = ([], [])
read_line (c ∷ s) = let r = read_line s in if c == 10 then ([], s) else (c ∷ r.0, r.1)

-- `scanf` on an input: what it stores, and the input that is left. `none` is a line that is written past
-- the end of the buffer, terminator included.
unfoldable pub scanf : List ℕ → List ℕ → Option (List Value × List ℕ)
scanf format input =
    let r = read_line input in
    if ltb (length r.0) buffer_size then some (scan_from format r.0, r.1) else none
