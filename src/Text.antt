-- ===== src/Text.antt =====
-- 3_Kernel/2_libraries/lib.c: C strings. A string is the list of its bytes before the terminator,
-- each from 1 to 255; an `int` result is its 32-bit pattern.
pub mod Memory
pub mod Words
mod Tests
use g21_tp2_so_1c.Base.{
  ℕ, zero, suc, ◌+◌, ◌-◌, ◌%◌, ◌/◌, ◌^◌, ◌<◌, Bool, true, false, List, [], ◌∷◌, ◌++◌, ltb, ◌==◌,
  if◌then◌else◌, ◌≡◌, refl, ap, arith, ◌↔◌,
}
use mathlib.Core.List.{reverse}

abbrev pub u32 : ℕ
u32 = 2 ^ 32

-- `*s1 - *s2` at the first difference, or at the end of `s1`.
unfoldable pub strcmp : List ℕ → List ℕ → ℕ
strcmp [] [] = 0
strcmp [] (b ∷ t) = (u32 - b) % u32
strcmp (a ∷ s) [] = a
strcmp (a ∷ s) (b ∷ t) = let rest = strcmp s t in if a == b then rest else (a + u32 - b) % u32

-- The bytes that `strncat` leaves in a destination that holds `dest`.
abbrev pub strncat : List ℕ → List ℕ → List ℕ
strncat dest src = dest ++ src

-- The digits of a number, the last first: the loop of `itoa`, which stops at 0. An `int` has at most
-- ten digits.
unfoldable pub digits_back : ℕ → ℕ → List ℕ
digits_back zero n = []
digits_back (suc f) n =
    let rest = digits_back f (n / 10) in if n == 0 then [] else (n % 10 + b'0') ∷ rest

-- `num` is the 32-bit pattern of an `int`; -2^31 has no negative and is outside the model.
unfoldable pub itoa : ℕ → List ℕ
unfolding digits_back
itoa num =
    if ltb num (2 ^ 31)
    then reverse (digits_back 10 num)
    else b'-' ∷ reverse (digits_back 10 (u32 - num))

abbrev pub IsString : List ℕ → Type 0
IsString [] = Unit {0}
IsString (c ∷ s) = (0 < c) × (c < 256) × IsString s

-- `strcmp` is 0 exactly on equal strings, of bytes from 1 to 255.
pub strcmp-zero : (s t : List ℕ) → IsString s → IsString t → (strcmp s t ≡ 0) ↔ (s ≡ t)
unfolding strcmp
strcmp-zero [] [] p q = (λ _. refl, λ _. refl)
strcmp-zero [] (b ∷ t) p q = (λ e. absurd (omega arith), λ e. cc)
strcmp-zero (a ∷ s) [] p q = (λ e. absurd (omega arith), λ e. cc)
strcmp-zero (a ∷ s) (b ∷ t) p q =
    let r = strcmp-zero s t p.2 q.2 in (λ e. ground arith, λ e. ground arith)
