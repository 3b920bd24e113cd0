-- ===== src/Text/Memory.antt =====
-- lib.c: `memset`, `memcpy`, `strncopy`, `strlength`, `reverse` and `itoaHex`. Memory is a function from
-- addresses to bytes; the addresses of one call do not pass 2^64.
pub mod Copy
use g21_tp2_so_1c.Base.{
  sym, dec_lt, ◌∙◌, take, replicate, ℕ, zero, suc, ◌+◌, ◌-◌, ◌*◌, ◌/◌, ◌%◌, ◌≤◌, ◌<◌, ◌≡◌, ◌≢◌,
  refl, ap, List, [], ◌∷◌, ◌++◌, ◌&&◌, length, ltb, ◌==◌, if◌then◌else◌, arith,
}
use mathlib.Core.List.{reverse}

abbrev pub poke : ℕ → ℕ → (ℕ → ℕ) → ℕ → ℕ
poke a x m b = if a == b then x else m b

-- The loop of `memset`, from the last byte down.
unfoldable pub memset : ℕ → ℕ → ℕ → (ℕ → ℕ) → ℕ → ℕ
memset dst c zero m = m
memset dst c (suc n) m = memset dst c n (poke (dst + n) (c % 256) m)

-- `n` bytes from `i` on, upwards.
unfoldable pub copy_bytes : ℕ → ℕ → ℕ → ℕ → (ℕ → ℕ) → ℕ → ℕ
copy_bytes dst src i zero m = m
copy_bytes dst src i (suc n) m = copy_bytes dst src (i + 1) n (poke (dst + i) (m (src + i)) m)

-- A word of four bytes is read whole before it is written.
abbrev pub copy_word : ℕ → ℕ → (ℕ → ℕ) → ℕ → ℕ
copy_word d s m =
    poke (d + 3) (m (s + 3)) (poke (d + 2) (m (s + 2)) (poke (d + 1) (m (s + 1)) (poke d (m s) m)))

unfoldable pub copy_words : ℕ → ℕ → ℕ → ℕ → (ℕ → ℕ) → ℕ → ℕ
copy_words dst src i zero m = m
copy_words dst src i (suc n) m =
    copy_words dst src (i + 1) n (copy_word (dst + 4 * i) (src + 4 * i) m)

unfoldable pub memcpy : ℕ → ℕ → ℕ → (ℕ → ℕ) → ℕ → ℕ
unfolding copy_bytes copy_words
memcpy dst src n m =
    if dst % 4 == 0 && src % 4 == 0 && n % 4 == 0
    then copy_words dst src 0 (n / 4) m
    else copy_bytes dst src 0 n m

-- A string is the list of its bytes before the terminator.
unfoldable pub strlength : List ℕ → ℕ
strlength [] = 0
strlength (c ∷ s) = strlength s + 1

-- The `size` bytes that `strncopy` writes: the string cut off, then zeros.
unfoldable pub strncopy : List ℕ → ℕ → List ℕ
strncopy s zero = []
strncopy [] (suc n) = 0 ∷ strncopy [] n
strncopy (c ∷ s) (suc n) = c ∷ strncopy s n

abbrev pub hex_digit : ℕ → ℕ
hex_digit r = if ltb r 10 then r + b'0' else r - 10 + b'A'

-- The digits of a 64-bit number, the last first; it has at most 16.
unfoldable pub hex_digits : ℕ → ℕ → List ℕ
hex_digits zero n = []
hex_digits (suc f) n =
    let rest = hex_digits f (n / 16) in if n == 0 then [] else hex_digit (n % 16) ∷ rest

unfoldable pub itoa_hex : ℕ → List ℕ
unfolding hex_digits
itoa_hex n = reverse (hex_digits 16 n)

-- `memset` sets the bytes from `dst` on, `n` of them, and no other.
pub memset-sets :
    (dst c n : ℕ) (m : ℕ → ℕ) (a : ℕ)
    → (((dst ≤ a) × (a < dst + n)) → memset dst c n m a ≡ c % 256)
      × (¬ ((dst ≤ a) × (a < dst + n)) → memset dst c n m a ≡ m a)
unfolding memset
memset-sets dst c zero m a = (λ h. absurd (omega arith), λ h. refl)
memset-sets dst c (suc n) m a =
    let r = memset-sets dst c n (poke (dst + n) (c % 256) m) a in
    (
      λ h. elim (dec_lt a (dst + n)) [
        | yes l ↦ r.0 (h.0, l)
        | no g ↦ r.1 (λ k. omega arith) ∙ (let e : dst + n ≡ a = omega arith in ground arith)
      ],
      λ h.
          r.1 (λ k. h (k.0, omega arith))
          ∙ (let ne : dst + n ≢ a = λ e. h (omega arith, omega arith) in ground arith),
    )

-- `strncopy` writes `size` bytes: the string, cut off at `size`, and zeros behind it.
pub strncopy-take : (s : List ℕ) (n : ℕ) → strncopy s n ≡ take n s ++ replicate (n - length s) 0
unfolding strncopy
strncopy-take [] zero = refl
strncopy-take (c ∷ s) zero =
    let e : 0 ≡ 0 - suc (length s) = omega arith in ap (λ k. replicate k 0) e
strncopy-take [] (suc n) =
    let e : suc n - 0 ≡ suc n = omega arith in
    ap (λ (l : List ℕ). 0 ∷ l) (strncopy_null n) ∙ ap (λ k. replicate k 0) (sym e)
  where
    strncopy_null : (n : ℕ) → strncopy [] n ≡ replicate n 0
    strncopy_null zero = refl
    strncopy_null (suc n) = ap (λ (l : List ℕ). 0 ∷ l) (strncopy_null n)
strncopy-take (c ∷ s) (suc n) =
    let e : n - length s ≡ suc n - suc (length s) = omega arith in
    ap (λ (l : List ℕ). c ∷ l) (strncopy-take s n ∙ ap (λ k. take n s ++ replicate k 0) e)
