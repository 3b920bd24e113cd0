-- ===== src/Shell/Commands.antt =====
-- 4_Userland/shellCodeModule/2_libraries/shellFunctions.c: a command line is split into a command and its
-- arguments. The line is the list of its bytes before the terminator.
pub mod Words
use g21_tp2_so_1c.Base.{
  ℕ, zero, suc, ◌+◌, List, [], ◌∷◌, ◌++◌, Bool, true, false, not, ◌&&◌, ◌||◌, length, map, leb,
  ◌==◌, if◌then◌else◌,
}
use g21_tp2_so_1c.Text.Words.{skip_blanks}

abbrev pub max_args : ℕ
max_args = 5

abbrev pub next_byte : List ℕ → ℕ
next_byte [] = 0
next_byte (c ∷ s) = c

-- `&` before a blank or the end.
abbrev pub is_background : ℕ → List ℕ → Bool
is_background c s = c == b'&' && (next_byte s == 0 || next_byte s == 32)

-- A blank with a word after it.
abbrev pub is_word_start : List ℕ → Bool
is_word_start s = not (next_byte s == 0) && (not (next_byte s == 32) && not (next_byte s == b'&'))

-- What the loop leaves: the line with the blanks that it overwrote, the places of the arguments, and
-- whether the command runs in the foreground.
pub record Scan : Type 0 where
  pub bytes : List ℕ
  pub places : List ℕ
  pub foreground : Bool

abbrev pub before : ℕ → Scan → Scan
before c r = record r { bytes = c ∷ r.bytes }

abbrev pub stop : List ℕ → List ℕ → Bool → Scan
stop bytes places foreground = record { bytes = bytes; places = places; foreground = foreground }

-- The loop of `fillCommandAndArgs` from the place `i` on, with the arguments found so far.
unfoldable pub scan : List ℕ → ℕ → List ℕ → Scan
scan [] i args = stop [] args true
scan (c ∷ s) i args =
    let more = scan s (i + 1) (args ++ ((i + 1) ∷ [])) in
    let same = scan s (i + 1) args in
    if is_background c s
    then stop (0 ∷ s) args false
    else if c == 32
    then if is_word_start s
      then if leb max_args (length args + 1)
        then stop (0 ∷ s) (args ++ ((i + 1) ∷ [])) true
        else before 0 more
      else before 0 same
    else before c same

-- The string at the start of a buffer, and at a place in it.
abbrev pub string_of : List ℕ → List ℕ
string_of [] = []
string_of (c ∷ s) = if c == 0 then [] else c ∷ string_of s

abbrev pub string_at : List ℕ → ℕ → List ℕ
string_at s zero = string_of s
string_at [] (suc n) = []
string_at (c ∷ s) (suc n) = string_at s n

pub record Command : Type 0 where
  pub command : List ℕ
  pub args : List (List ℕ)
  pub foreground : Bool

abbrev pub command_of : Scan → Command
command_of r = record {
  command = string_of r.bytes;
  args = map (string_at r.bytes) r.places;
  foreground = r.foreground;
}

unfoldable pub fill_command_and_args : List ℕ → Command
unfolding scan
fill_command_and_args input = command_of (scan (skip_blanks input) 0 [])
