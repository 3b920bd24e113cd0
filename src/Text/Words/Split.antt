-- ===== src/Text/Words/Split.antt =====
-- strLib.c: what `splitString` returns.
use g21_tp2_so_1c.Base.{
  by_cases, ℕ, ◌+◌, ◌-◌, ◌≤◌, ◌<◌, List, [], ◌∷◌, ◌++◌, ◌&&◌, length, length-append, ltb, leb,
  arith, by_bool,
}
use g21_tp2_so_1c.Text.Words.{max_words, max_word_length, split_from, split_string, isspace}

-- Words that are not empty and fit, with their terminators, in the rows of the array.
abbrev pub Fit : List (List ℕ) → Type 0
Fit [] = Unit {0}
Fit (w ∷ ws) = (0 < length w) × (length w < max_word_length) × Fit ws

Fit-snoc :
    (ws : List (List ℕ)) (w : List ℕ)
    → Fit ws
    → 0 < length w
    → length w < max_word_length
    → Fit (ws ++ (w ∷ []))
Fit-snoc [] w f p l = (p, l, tt)
Fit-snoc (v ∷ ws) w f p l = (f.0, f.1, Fit-snoc ws w f.2 p l)

abbrev pub Splits : List (List ℕ) → Type 0
Splits ws = Fit ws × (length ws ≤ max_words)

Splits-snoc :
    (ws : List (List ℕ)) (w : List ℕ)
    → Fit ws
    → 0 < length w
    → length w < max_word_length
    → length ws < max_words
    → Splits (ws ++ (w ∷ []))
Splits-snoc ws w f p l n = (Fit-snoc ws w f p l, omega (arith, length-append ws (w ∷ [])))

split_from-Splits :
    (s word : List ℕ) (words : List (List ℕ))
    → length word < max_word_length
    → Fit words
    → length words < max_words
    → Splits (split_from s word words)
unfolding split_from
split_from-Splits [] word words l f n =
    by_bool Splits (ltb 0 (length word) && ltb (length words) max_words) _ _
      (λ y. Splits-snoc words word f (ground arith) l n) (λ _. (f, omega arith))
split_from-Splits (c ∷ s) word words l f n =
    by_cases Splits (isspace c) _ _
      (λ _.
        by_cases Splits (ltb 0 (length word)) _ _
          (λ p.
            by_cases Splits (leb max_words (length words + 1)) _ _
              (λ _. Splits-snoc words word f (ground arith) l n)
              (λ q.
                split_from-Splits s [] (words ++ (word ∷ [])) (omega arith)
                  (Fit-snoc words word f (ground arith) l)
                  (let e = length-append words (word ∷ []) in ground arith)))
          (λ _. split_from-Splits s word words l f n))
      (λ _.
        split_from-Splits s _ words
          (by_bool (λ (w : List ℕ). length w < max_word_length)
            (ltb (length word) (max_word_length - 1)) (word ++ (c ∷ [])) word
            (λ q. let e = length-append word (c ∷ []) in ground arith) (λ _. l))
          f n)

-- `splitString` returns at most four words, each of 1 to 31 bytes, so that none overruns its row.
pub split_string-Splits : (s : List ℕ) → Splits (split_string s)
unfolding split_string
split_string-Splits s = split_from-Splits s [] [] (omega arith) tt (omega arith)
