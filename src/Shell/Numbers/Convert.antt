-- ===== src/Shell/Numbers/Convert.antt =====
-- stdLib.c: the digits of `from_decimal`, read by `to_decimal`.
use g21_tp2_so_1c.Base.{
  ℕ, zero, suc, ◌+◌, ◌*◌, ◌/◌, ◌%◌, ◌^◌, ◌<◌, ◌≤◌, List, [], ◌∷◌, ◌++◌, some, Bool, false, ◌||◌,
  leb, ◌==◌, if◌then◌else◌, ◌≡◌, ◌≢◌, refl, arith, ap, ◌∙◌, sym, ℕ_discrete, ==-false,
}
use mathlib.Core.List.{reverse, reverse-cons, append_assoc, append-nil}
use native.Mathlib.Nat.{mod-lt, mul-le-mul_right, div-add-mod', mul_comm}
use g21_tp2_so_1c.Shell.Numbers.{
  decimal_from, to_decimal, digits_in, from_decimal, digit_below, digit_char, get_base_from_char,
  minus_one, first_byte, convert, printed_in, invalid_base, invalid_number,
}
use g21_tp2_so_1c.Shell.Numbers.Swaps.{swaps-reverse}

abbrev pub bound : ℕ → ℕ
bound zero = 1
bound (suc f) = 2 * bound f

digit_below-digit_char :
    (base d : ℕ) → d < base → base ≤ 16 → digit_below base (digit_char d) ≡ some d
digit_below-digit_char base d l m = ground arith

pub div_parts :
    (n base : ℕ)
    → 2 ≤ base
    → (n / base * base + n % base ≡ n) × (n % base < base) × (2 * (n / base) ≤ n)
div_parts n base h =
    let e = div-add-mod' n base in
    (
      e,
      mod-lt n (omega arith),
      omega (arith, e, mul_comm (n / base) base, mul-le-mul_right (n / base) h),
    )

snoc_tail :
    (back : List ℕ) (c : ℕ) (tail : List ℕ) (base : ℕ)
    → decimal_from base (reverse (c ∷ back) ++ tail) 0
      ≡ decimal_from base (reverse back ++ (c ∷ tail)) 0
snoc_tail back c tail base =
    ap (λ (s : List ℕ). decimal_from base s 0)
      (ap (λ (s : List ℕ). s ++ tail) (reverse-cons c back)
        ∙ append_assoc (reverse back) (c ∷ []) tail)

step :
    (base q c d : ℕ) (tail : List ℕ)
    → digit_below base c ≡ some d
    → decimal_from base (c ∷ tail) q ≡ decimal_from base tail ((q * base + d) % 2 ^ 32)
unfolding decimal_from
step base q c d tail e = ground (arith, e)

read_digit :
    (base q d n : ℕ) (tail : List ℕ)
    → digit_below base (digit_char d) ≡ some d
    → q * base + d ≡ n
    → n < 2 ^ 31
    → decimal_from base (digit_char d ∷ tail) q ≡ decimal_from base tail n
unfolding decimal_from
read_digit base q d n tail e w s =
    step base q (digit_char d) d tail e ∙ ap (decimal_from base tail) (omega (arith, w))

-- The digits of a number, read in front of a tail.
decimal_from-digits :
    (base f n : ℕ) (tail : List ℕ)
    → 2 ≤ base
    → base ≤ 16
    → n < bound f
    → n < 2 ^ 31
    → decimal_from base (reverse (digits_in base f n) ++ tail) 0 ≡ decimal_from base tail n
unfolding digits_in decimal_from
decimal_from-digits base zero n tail lo hi l s = ap (decimal_from base tail) (omega arith)
decimal_from-digits base (suc f) n tail lo hi l s = elim (ℕ_discrete n 0) [
  | yes e ↦ rw e refl
  | no ne ↦
      let (whole, rest, half) = div_parts n base lo in
      let d = n % base in
      let back = digits_in base f (n / base) in
      rw (==-false n 0 ne) (
        snoc_tail back (digit_char d) tail base
        ∙ decimal_from-digits base f (n / base) (digit_char d ∷ tail) lo hi (omega (arith, half))
            (omega (arith, half))
        ∙ read_digit base (n / base) d n tail (digit_below-digit_char base d rest hi) whole s)
]

third {ℓ} :
    {A : Type ℓ} (b c : Bool) (x y z : A)
    → b ≡ false
    → c ≡ false
    → (if b then x else if c then y else z) ≡ z
third b c x y z e f = rw (e, f) refl

from_decimal-reverse :
    (n base : ℕ) → n ≢ 0 → n < 2 ^ 31 → from_decimal n base ≡ reverse (digits_in base 31 n)
unfolding from_decimal
from_decimal-reverse n base ne l =
    third (n == 0) (leb (2 ^ 31) n) _ _ _ (==-false n 0 ne) (ground arith)
    ∙ swaps-reverse (digits_in base 31 n)

decimal_from-reverse :
    (n base : ℕ)
    → 2 ≤ base
    → base ≤ 16
    → n < 2 ^ 31
    → decimal_from base (reverse (digits_in base 31 n)) 0 ≡ n
decimal_from-reverse n base lo hi l =
    ap (λ (s : List ℕ). decimal_from base s 0) (sym (append-nil (reverse (digits_in base 31 n))))
    ∙ decimal_from-digits base 31 n [] lo hi l l
    ∙ unfold decimal_from in refl

to_decimal-zero : (base : ℕ) → 2 ≤ base → to_decimal (from_decimal 0 base) base ≡ 0
unfolding to_decimal from_decimal
to_decimal-zero base lo = ground arith

-- What `from_decimal` writes of a number below 2^31 in a base from 2 to 16, `to_decimal` reads back.
pub to_decimal-from_decimal :
    (n base : ℕ) → 2 ≤ base → base ≤ 16 → n < 2 ^ 31 → to_decimal (from_decimal n base) base ≡ n
to_decimal-from_decimal n base lo hi l = elim (ℕ_discrete n 0) [
  | yes e ↦ rw e (to_decimal-zero base lo)
  | no ne ↦
      rw (from_decimal-reverse n base ne l)
        (unfold to_decimal in decimal_from-reverse n base lo hi l)
]

neither : (a b : ℕ) → a ≢ minus_one → b ≢ minus_one → (a == minus_one || b == minus_one) ≡ false
neither a b h k = ground arith

base_bounds :
    (c : ℕ)
    → get_base_from_char c ≢ minus_one
    → (2 ≤ get_base_from_char c) × (get_base_from_char c ≤ 16)
base_bounds c h = ground arith

-- With two letters of bases and a number of the first base below 2^31, `convert` prints the digits of
-- the same number in the second base.
pub convert-to_decimal :
    (init_base final_base num : List ℕ)
    → get_base_from_char (first_byte init_base) ≢ minus_one
    → get_base_from_char (first_byte final_base) ≢ minus_one
    → to_decimal num (get_base_from_char (first_byte init_base)) < 2 ^ 31
    → (s : List ℕ) × (convert (init_base ∷ final_base ∷ num ∷ [])
        ≡ printed_in (get_base_from_char (first_byte final_base)) s)
      × (to_decimal s (get_base_from_char (first_byte final_base))
          ≡ to_decimal num (get_base_from_char (first_byte init_base)))
unfolding convert
convert-to_decimal init_base final_base num hi hf l =
    let init = get_base_from_char (first_byte init_base) in
    let final = get_base_from_char (first_byte final_base) in
    let n = to_decimal num init in
    let (lo, up) = base_bounds (first_byte final_base) hf in
    (
      from_decimal n final,
      third (init == minus_one || final == minus_one) (n == minus_one) invalid_base
          (invalid_number num) (printed_in final (from_decimal n final)) (neither init final hi hf)
          (==-false n minus_one (omega (arith, l))),
      to_decimal-from_decimal n final lo up l,
    )
