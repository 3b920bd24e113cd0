-- ===== src/Text/Tests.antt =====
-- lib.c: runs of the string functions, and their theorem at concrete strings.
use g21_tp2_so_1c.Base.{ℕ, List, ◌++◌, some, ◌≡◌, refl, [], ◌∷◌, arith}
use g21_tp2_so_1c.Text.{itoa, digits_back}
use g21_tp2_so_1c.Text.Memory.{memcpy, copy_words, copy_bytes}
use g21_tp2_so_1c.Text.Memory.Copy.{Copied, memcpy-Copied}
use g21_tp2_so_1c.Text.Words.{split_string, split_from, string_to_int, read_digits}
use g21_tp2_so_1c.Text.Words.Split.{Splits, split_string-Splits}

itoa_runs : itoa 1024 ≡ b'1' ∷ b'0' ∷ b'2' ∷ b'4' ∷ []
unfolding itoa digits_back
itoa_runs = refl

-- Zero is printed as the empty string.
itoa_zero : itoa 0 ≡ []
unfolding itoa digits_back
itoa_zero = refl

abbrev ab : List ℕ
ab = b'a' ∷ b'b' ∷ []

abbrev ac : List ℕ
ac = b'a' ∷ b'c' ∷ []

memcpy_runs : memcpy 8 100 8 (λ a. a) 13 ≡ 105
unfolding memcpy copy_words copy_bytes
memcpy_runs = refl

-- " ab  ac" has the words "ab" and "ac".
abbrev spaced : List ℕ
spaced = 32 ∷ ab ++ (32 ∷ 32 ∷ ac)

split_runs : split_string spaced ≡ ab ∷ ac ∷ []
unfolding split_string split_from
split_runs = refl

split_string-Splits_example : Splits (split_string spaced)
split_string-Splits_example = split_string-Splits spaced

number_runs : string_to_int (32 ∷ b'4' ∷ b'2' ∷ []) ≡ some 42
unfolding string_to_int read_digits
number_runs = refl

memcpy-Copied_example : Copied 8 100 0 8 (λ a. a) (memcpy 8 100 8 (λ a. a))
memcpy-Copied_example = memcpy-Copied 8 100 8 (λ a. a) (λ j k a b. omega arith)
