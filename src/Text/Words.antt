-- ===== src/Text/Words.antt =====
-- 4_Userland/shellCodeModule/2_libraries/strLib.c: the strings of the shell. A string is the list of its
-- bytes before the terminator, an `int` its 32-bit pattern.
pub mod Split
use g21_tp2_so_1c.Base.{
  ℕ, zero, suc, ◌+◌, ◌-◌, ◌*◌, ◌/◌, ◌%◌, ◌^◌, List, [], ◌∷◌, ◌++◌, Option, none, some, Bool, true,
  false, not, ◌&&◌, ◌||◌, length, ltb, leb, ◌==◌, if◌then◌else◌,
}
use mathlib.Core.List.{reverse}

abbrev pub max_words : ℕ
max_words = 4

abbrev pub max_word_length : ℕ
max_word_length = 32

abbrev pub to_lowercase : ℕ → ℕ
to_lowercase c = if leb b'A' c && leb c b'Z' then c + 32 else c

abbrev pub to_uppercase : ℕ → ℕ
to_uppercase c = if leb b'a' c && leb c b'z' then c - 32 else c

abbrev pub is_upper : ℕ → Bool
is_upper c = (leb 33 c && leb c 43) || (leb 65 c && leb c 90)

-- Blank, tab, newline, vertical tab, form feed and carriage return.
abbrev pub isspace : ℕ → Bool
isspace c = c == 32 || (c == 9 || (c == 10 || (c == 11 || (c == 12 || c == 13))))

abbrev pub is_number : ℕ → Bool
is_number c = leb b'0' c && leb c b'9'

abbrev pub is_character : ℕ → Bool
is_character c = leb b'a' c && leb c b'z'

-- The last word, at the end of the string.
abbrev pub last_word : List ℕ → List (List ℕ) → List (List ℕ)
last_word word words =
    if ltb 0 (length word) && ltb (length words) max_words then words ++ (word ∷ []) else words

-- The loop of `splitString`, with the word that is being read and the words before it.
unfoldable pub split_from : List ℕ → List ℕ → List (List ℕ) → List (List ℕ)
split_from [] word words = last_word word words
split_from (c ∷ s) word words = elim (isspace c) [
  | true ↦ elim (ltb 0 (length word)) [
    | true ↦ elim (leb max_words (length words + 1)) [
      | true ↦ words ++ (word ∷ [])
      | false ↦ split_from s [] (words ++ (word ∷ []))
    ]
    | false ↦ split_from s word words
  ]
  | false ↦
      split_from s (if ltb (length word) (max_word_length - 1) then word ++ (c ∷ []) else word)
        words
]

unfoldable pub split_string : List ℕ → List (List ℕ)
unfolding split_from
split_string s = split_from s [] []

-- The digits of a number, the last first; the loop runs at least once. An `int` has at most ten.
unfoldable pub int_digits : ℕ → ℕ → List ℕ
int_digits zero n = []
int_digits (suc f) n =
    let rest = int_digits f (n / 10) in (n % 10 + b'0') ∷ (if n / 10 == 0 then [] else rest)

-- What `intToString` writes into an empty buffer; it then returns the length. -2^31 is outside the
-- model.
unfoldable pub int_to_string : ℕ → List ℕ
unfolding int_digits
int_to_string n =
    if ltb n (2 ^ 31)
    then reverse (int_digits 10 n)
    else b'-' ∷ reverse (int_digits 10 (2 ^ 32 - n))

abbrev pub skip_blanks : List ℕ → List ℕ
skip_blanks [] = []
skip_blanks (c ∷ s) = if c == 32 then skip_blanks s else c ∷ s

-- `none` is the -1 that `stringToInt` returns of a string with anything but digits.
unfoldable pub read_digits : List ℕ → ℕ → Option ℕ
read_digits [] n = some n
read_digits (c ∷ s) n = elim (is_number c) [
  | true ↦ read_digits s ((n * 10 + (c - b'0')) % 2 ^ 32)
  | false ↦ none
]

abbrev pub digits_of : List ℕ → Option ℕ
digits_of [] = none
digits_of (c ∷ s) = read_digits (c ∷ s) 0

unfoldable pub string_to_int : List ℕ → Option ℕ
unfolding read_digits
string_to_int s = digits_of (skip_blanks s)

-- The rest of the string from the first `c` on; `none` is NULL.
unfoldable pub strchr : List ℕ → ℕ → Option (List ℕ)
strchr [] c = none
strchr (x ∷ s) c = let rest = strchr s c in if x == c then some (x ∷ s) else rest
