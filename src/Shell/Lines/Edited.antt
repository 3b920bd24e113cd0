-- ===== src/Shell/Lines/Edited.antt =====
-- stdLib.c: the line that `gets` returns.
use g21_tp2_so_1c.Base.{
  ℕ, ◌-◌, ◌≤◌, List, [], ◌∷◌, ◌++◌, ltb, length, length-append, ◌==◌, Option, none, some, ◌≡◌, ◌≢◌,
  refl, arith, by_bool, by_cases,
}
use g21_tp2_so_1c.Shell.Lines.{Typing, typed, gets, gets_from, without_last, newline, backspace}

abbrev pub AllBytes : (ℕ → Type 0) → List ℕ → Type 0
AllBytes P [] = Unit {0}
AllBytes P (c ∷ s) = P c × AllBytes P s

abbrev pub IsPlain : ℕ → Type 0
IsPlain c = (c ≢ newline) × (c ≢ backspace)

-- A buffer of `n` bytes with room for the terminator, and nothing but bytes typed.
abbrev pub Fits : ℕ → List ℕ → Type 0
Fits n s = (length s ≤ n - 1) × AllBytes IsPlain s

length-without_last : (s : List ℕ) → length (without_last s) ≤ length s
length-without_last [] = omega arith
length-without_last (c ∷ []) = omega arith
length-without_last (c ∷ d ∷ s) = omega (arith, length-without_last (d ∷ s))

AllBytes-without_last : (P : ℕ → Type 0) (s : List ℕ) → AllBytes P s → AllBytes P (without_last s)
AllBytes-without_last P [] a = tt
AllBytes-without_last P (c ∷ []) a = tt
AllBytes-without_last P (c ∷ d ∷ s) a = (a.0, AllBytes-without_last P (d ∷ s) a.1)

AllBytes-append :
    (P : ℕ → Type 0) (s t : List ℕ) → AllBytes P s → AllBytes P t → AllBytes P (s ++ t)
AllBytes-append P [] t a b = b
AllBytes-append P (c ∷ s) t a b = (a.0, AllBytes-append P s t a.1 b)

typed-Fits : (n c : ℕ) (t : Typing) → c ≢ newline → Fits n t.buffer → Fits n (typed n c t).buffer
typed-Fits n c t h f =
    by_bool (λ (u : Typing). Fits n u.buffer) (c == backspace) _ _
      (λ e.
        by_bool (λ (u : Typing). Fits n u.buffer) (ltb 0 (length t.buffer)) _ t
          (λ o. (
            omega (arith, f.0, length-without_last t.buffer),
            AllBytes-without_last IsPlain t.buffer f.1,
          ))
          (λ o. f))
      (λ e.
        by_bool (λ (u : Typing). Fits n u.buffer) (ltb (length t.buffer) (n - 1)) _ t
          (λ o. (
            ground (arith, length-append t.buffer (c ∷ [])),
            AllBytes-append IsPlain t.buffer (c ∷ []) f.1 ((h, ground arith), tt),
          ))
          (λ o. f))

-- The result of a line that ends.
abbrev pub Line : ℕ → List ℕ → Option (Typing × List ℕ) → Type 0
Line n rest none = ⊥
Line n rest (some (t, left)) = Fits n t.buffer × (left ≡ rest)

gets_from-Line :
    (n : ℕ) (s rest : List ℕ) (t : Typing)
    → AllBytes (λ c. c ≢ newline) s
    → Fits n t.buffer
    → Line n rest (gets_from n (s ++ (newline ∷ rest)) t)
unfolding gets_from
gets_from-Line n [] rest t a f = (f, refl)
gets_from-Line n (c ∷ s) rest t a f =
    by_cases (Line n rest) (c == newline) _ _ (λ e. absurd (a.0 (ground arith)))
      (λ e. gets_from-Line n s rest (typed n c t) a.1 (typed-Fits n c t a.0 f))

-- Whatever is typed up to a newline, `gets` returns at it, leaves the input after it, and its line has
-- at most `n - 1` bytes, none of them a newline or a backspace.
pub gets-Line :
    (n : ℕ) (s rest : List ℕ)
    → AllBytes (λ c. c ≢ newline) s
    → Line n rest (gets n (s ++ (newline ∷ rest)))
unfolding gets
gets-Line n s rest a = gets_from-Line n s rest _ a (omega arith, tt)
