-- ===== src/Shell/Lines.antt =====
-- 4_Userland/shellCodeModule/2_libraries/stdLib.c: reading a line, with corrections. The input is the
-- bytes that `getchar` returns; `none` is a line that is not ended yet.
pub mod Edited
use g21_tp2_so_1c.Base.{
  ℕ, zero, suc, ◌+◌, ◌-◌, List, [], ◌∷◌, ◌++◌, Bool, true, false, not, ◌&&◌, ltb, length, ◌==◌,
  if◌then◌else◌, Option, none, some,
}

abbrev pub newline : ℕ
newline = 10

abbrev pub backspace : ℕ
backspace = 8

-- The first `i - 1` bytes of `i`.
abbrev pub without_last : List ℕ → List ℕ
without_last [] = []
without_last (c ∷ []) = []
without_last (c ∷ d ∷ s) = c ∷ without_last (d ∷ s)

-- What is in the buffer, and what was printed.
pub record Typing : Type 0 where
  pub buffer : List ℕ
  pub shown : List ℕ

abbrev pub typed : ℕ → ℕ → Typing → Typing
typed n c t =
    if c == backspace
    then if ltb 0 (length t.buffer)
      then record { buffer = without_last t.buffer; shown = t.shown ++ (c ∷ []) }
      else t
    else if ltb (length t.buffer) (n - 1)
    then record { buffer = t.buffer ++ (c ∷ []); shown = t.shown ++ (c ∷ []) }
    else t

-- The line, and the rest of the input.
unfoldable pub gets_from : ℕ → List ℕ → Typing → Option (Typing × List ℕ)
gets_from n [] t = none
gets_from n (c ∷ s) t = elim (c == newline) [
  | true ↦ some (record t { shown = t.shown ++ (newline ∷ []) }, s)
  | false ↦ gets_from n s (typed n c t)
]

unfoldable pub gets : ℕ → List ℕ → Option (Typing × List ℕ)
unfolding gets_from
gets n input = gets_from n input (record { buffer = []; shown = [] })

-- `puts`: the string and a newline.
abbrev pub puts : List ℕ → List ℕ
puts s = s ++ (newline ∷ [])
