-- ===== src/Shell/Numbers.antt =====
-- 4_Userland/shellCodeModule/2_libraries/stdLib.c: reading and writing numbers, and the command
-- `convert`. A string is the list of its bytes before the terminator, an `int` its 32-bit pattern.
pub mod Swaps
pub mod Convert
use g21_tp2_so_1c.Base.{
  ℕ, zero, suc, ◌+◌, ◌-◌, ◌*◌, ◌/◌, ◌%◌, ◌^◌, List, [], ◌∷◌, ◌++◌, Option, none, some, Bool, true,
  false, not, ◌&&◌, ◌||◌, length, get_or, set, ltb, leb, ◌==◌, if◌then◌else◌,
}
use g21_tp2_so_1c.Text.Words.{is_number}

abbrev pub minus_one : ℕ
minus_one = 2 ^ 32 - 1

abbrev pub get_base_from_char : ℕ → ℕ
get_base_from_char base =
    if base == b'b'
    then 2
    else if base == b'o'
    then 8
    else if base == b'd'
    then 10
    else if base == b'h'
    then 16
    else minus_one

-- `none` is a byte that is no digit of any base.
abbrev pub digit_value : ℕ → Option ℕ
digit_value c =
    if is_number c
    then some (c - b'0')
    else if leb b'A' c && leb c b'F'
    then some (c - b'A' + 10)
    else if leb b'a' c && leb c b'f'
    then some (c - b'a' + 10)
    else none

abbrev pub digit_below : ℕ → ℕ → Option ℕ
digit_below base c = elim (digit_value c) [
  | none ↦ none
  | some d ↦ if leb base d then none else some d
]

-- The loop of `to_decimal`, with the result so far.
unfoldable pub decimal_from : ℕ → List ℕ → ℕ → ℕ
decimal_from base [] result = result
decimal_from base (c ∷ s) result = elim (digit_below base c) [
  | none ↦ minus_one
  | some d ↦ decimal_from base s ((result * base + d) % 2 ^ 32)
]

unfoldable pub to_decimal : List ℕ → ℕ → ℕ
unfolding decimal_from
to_decimal fmt base = decimal_from base fmt 0

-- "0123456789ABCDEF"[d].
abbrev pub digit_char : ℕ → ℕ
digit_char d = if ltb d 10 then d + b'0' else d - 10 + b'A'

-- The loop of `from_decimal`: the digits, the last first.
unfoldable pub digits_in : ℕ → ℕ → ℕ → List ℕ
digits_in base zero n = []
digits_in base (suc f) n =
    let rest = digits_in base f (n / base) in if n == 0 then [] else digit_char (n % base) ∷ rest

-- The entries `i` and `pos - i - 1` change places.
abbrev pub swap_ends : ℕ → ℕ → List ℕ → List ℕ
swap_ends pos i buffer =
    set (set buffer i (get_or buffer (pos - i - 1) 0)) (pos - i - 1) (get_or buffer i 0)

-- `n` rounds of the loop that turns the buffer round, from `i` on.
unfoldable pub swaps : ℕ → ℕ → ℕ → List ℕ → List ℕ
swaps pos zero i buffer = buffer
swaps pos (suc n) i buffer = swaps pos n (i + 1) (swap_ends pos i buffer)

-- An `int` above 0 has at most 31 digits. Of a negative one the buffer is left empty.
unfoldable pub from_decimal : ℕ → ℕ → List ℕ
from_decimal decimal base =
    if decimal == 0
    then b'0' ∷ []
    else if leb (2 ^ 31) decimal
    then []
    else let back = digits_in base 31 decimal in swaps (length back) (length back / 2) 0 back

-- What `convert` prints: the three messages, and a number with its suffix, its prefix or neither.
pub data Answer : Type 0 where
  usage : Answer
  invalid_base : Answer
  invalid_number : List ℕ → Answer
  binary hexadecimal plain : List ℕ → Answer

abbrev pub first_byte : List ℕ → ℕ
first_byte [] = 0
first_byte (c ∷ s) = c

abbrev pub printed_in : ℕ → List ℕ → Answer
printed_in base s = if base == 2 then binary s else if base == 16 then hexadecimal s else plain s

unfoldable pub convert : List (List ℕ) → Answer
convert (init_base ∷ final_base ∷ num ∷ []) =
    let init = get_base_from_char (first_byte init_base) in
    let final = get_base_from_char (first_byte final_base) in
    let decimal = to_decimal num init in
    if init == minus_one || final == minus_one
    then invalid_base
    else if decimal == minus_one
    then invalid_number num
    else printed_in final (from_decimal decimal final)
convert args = usage

-- The loop of `satoi`, over 64 bits; `none` is the flag 0, with the result 0.
unfoldable pub satoi_from : List ℕ → ℕ → Option ℕ
satoi_from [] res = some res
satoi_from (c ∷ s) res = elim (is_number c) [
  | true ↦ satoi_from s ((res * 10 + (c - b'0')) % 2 ^ 64)
  | false ↦ none
]

abbrev pub negated : ℕ → ℕ
negated n = (2 ^ 64 - n) % 2 ^ 64

unfoldable pub satoi : List ℕ → Option ℕ
unfolding satoi_from
satoi [] = satoi_from [] 0
satoi (c ∷ s) =
    if c == b'-'
    then elim (satoi_from s 0) [ none ↦ none | some n ↦ some (negated n) ]
    else satoi_from (c ∷ s) 0

abbrev pub atoi : List ℕ → ℕ
atoi s = elim (satoi s) [ none ↦ 0 | some n ↦ n ]
