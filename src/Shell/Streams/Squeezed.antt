-- ===== src/Shell/Streams/Squeezed.antt =====
-- shellFunctions.c: the text that `filter` prints.
use g21_tp2_so_1c.Base.{ℕ, List, [], ◌∷◌, Bool, true, not, ◌==◌, ◌≡◌, arith, ◌⊎◌}
use g21_tp2_so_1c.Shell.Streams.{keep, kept_from, last_is}

-- Vowels and single blanks, the last first; the first of all is no blank.
abbrev pub IsSqueezed : (ℕ → Bool) → List ℕ → Type 0
IsSqueezed v [] = Unit {0}
IsSqueezed v (c ∷ s) =
    ((v c ≡ true) ⊎ ((c ≡ 32) × (last_is (λ d. not (d == 32)) s ≡ true))) × IsSqueezed v s

keep-IsSqueezed :
    (v : ℕ → Bool) (kept : List ℕ) (c : ℕ) → IsSqueezed v kept → IsSqueezed v (keep v kept c)
keep-IsSqueezed v [] c h = ground arith
keep-IsSqueezed v (d ∷ s) c h = ground arith

-- Whatever is typed, corrections included, `filter` keeps vowels and blanks only, no blank first and no
-- two blanks in a row.
pub kept_from-IsSqueezed :
    (v : ℕ → Bool) (input kept : List ℕ) → IsSqueezed v kept → IsSqueezed v (kept_from v input kept)
unfolding kept_from
kept_from-IsSqueezed v [] kept h = h
kept_from-IsSqueezed v (c ∷ s) kept h =
    kept_from-IsSqueezed v s (keep v kept c) (keep-IsSqueezed v kept c h)
