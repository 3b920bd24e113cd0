-- ===== src/Shell/Streams.antt =====
-- 4_Userland/shellCodeModule/2_libraries/shellFunctions.c: the commands that read their input to its end.
-- The input is the bytes that `getCharNoWait` reads; it takes a byte 255, which is -1 as a `char`, for
-- the end.
pub mod Squeezed
use g21_tp2_so_1c.Base.{
  ℕ, zero, suc, ◌+◌, ◌%◌, ◌^◌, List, [], ◌∷◌, ◌++◌, Bool, true, false, not, ◌&&◌, ◌||◌, ltb, length,
  ◌==◌, if◌then◌else◌, Option, none, some,
}
use mathlib.Core.List.{reverse}
use g21_tp2_so_1c.Text.{strcmp}

abbrev pub newline : ℕ
newline = 10

abbrev pub backspace : ℕ
backspace = 8

abbrev pub until_eof : List ℕ → List ℕ
until_eof [] = []
until_eof (c ∷ s) = if c == 255 then [] else c ∷ until_eof s

-- A read that brings nothing leaves a 0, which is not printed.
unfoldable pub echo : List ℕ → List ℕ
echo [] = []
echo (c ∷ s) = if c == 0 then echo s else c ∷ echo s

-- What `cat` prints.
unfoldable pub cat : List ℕ → List ℕ
unfolding echo
cat input = echo (until_eof input)

pub record Counts : Type 0 where
  pub lines : ℕ
  pub words : ℕ
  pub chars : ℕ

abbrev pub one_more : Bool → ℕ → ℕ
one_more b n = if b then (n + 1) % 2 ^ 32 else n

unfoldable pub count_from : List ℕ → Counts → Counts
count_from [] k = k
count_from (c ∷ s) k = count_from s (record {
  lines = one_more (c == newline) k.lines;
  words = one_more (c == 32) k.words;
  chars = one_more (not (c == 0)) k.chars;
})

-- The counts that `wc` prints; it takes one word more than blanks.
unfoldable pub wc : List ℕ → Counts
unfolding count_from
wc input =
    let k = count_from (until_eof input) (record { lines = 0; words = 0; chars = 0 }) in
    record k { words = (k.words + 1) % 2 ^ 32 }

-- A newline counts as a vowel.
abbrev pub is_standard_vowel : ℕ → Bool
is_standard_vowel c =
    c == b'a'
    || (c == b'e'
        || (c == b'i'
            || (c == b'o'
                || (c == b'u'
                    || (c == b'A'
                        || (c == b'E'
                            || (c == b'I' || (c == b'O' || (c == b'U' || c == newline)))))))))

abbrev pub is_french_vowel : ℕ → Bool
is_french_vowel c = is_standard_vowel c || (c == b'y' || c == b'Y')

-- The argument of `filter`, if there is one.
abbrev pub get_vowel_checker : Option (List ℕ) → ℕ → Bool
get_vowel_checker none = is_standard_vowel
get_vowel_checker (some lang) =
    if strcmp lang (b'f' ∷ b'r' ∷ []) == 0 then is_french_vowel else is_standard_vowel

abbrev pub last_is : (ℕ → Bool) → List ℕ → Bool
last_is p [] = false
last_is p (c ∷ s) = p c

abbrev pub drop_last : List ℕ → List ℕ
drop_last [] = []
drop_last (c ∷ s) = s

-- One byte of the input of `filter`.
abbrev pub keep : (ℕ → Bool) → List ℕ → ℕ → List ℕ
keep is_vowel kept c =
    if c == 0
    then kept
    else if is_vowel c || (c == 32 && last_is (λ d. not (d == 32)) kept)
    then c ∷ kept
    else if c == backspace && last_is is_vowel kept
    then drop_last kept
    else kept

unfoldable pub kept_from : (ℕ → Bool) → List ℕ → List ℕ → List ℕ
kept_from is_vowel [] kept = kept
kept_from is_vowel (c ∷ s) kept = kept_from is_vowel s (keep is_vowel kept c)

-- The vowels that `filter` prints.
unfoldable pub filter : Option (List ℕ) → List ℕ → List ℕ
unfolding kept_from
filter lang input = reverse (kept_from (get_vowel_checker lang) (until_eof input) [])
