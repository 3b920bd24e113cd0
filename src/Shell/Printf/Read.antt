-- ===== src/Shell/Printf/Read.antt =====
-- stdLib.c: what `printf` prints of numbers, read by `scanf`.
use g21_tp2_so_1c.Base.{
  ℕ, zero, suc, ◌+◌, ◌-◌, ◌*◌, ◌/◌, ◌%◌, ◌^◌, ◌≤◌, ◌<◌, List, [], ◌∷◌, ◌++◌, true, false, leb,
  length, map, ◌==◌, if◌then◌else◌, some, ◌≡◌, refl, arith, ◌∙◌, ap, ==-false, ℕ_discrete,
}
use mathlib.Core.List.{reverse, reverse-cons, append_assoc}
use g21_tp2_so_1c.Text.Words.{is_number}
use g21_tp2_so_1c.Shell.Numbers.{digits_in, digit_char}
use g21_tp2_so_1c.Shell.Numbers.Convert.{bound}
use g21_tp2_so_1c.Shell.Printf.{
  Arg, int, Value, number, convert_to_base_string, type_to_buffer, int_text, also, args_from,
  args_to_buffer, scan_int, scan_from, is_negative,
}

scan_int-step :
    (c n : ℕ) (tail : List ℕ)
    → is_number c ≡ true
    → scan_int (c ∷ tail) n ≡ scan_int tail ((n * 10 + (c - b'0')) % 2 ^ 32)
unfolding scan_int
scan_int-step c n tail e = ground (arith, e)

scan_int-digit :
    (q d n : ℕ) (tail : List ℕ)
    → d < 10
    → q * 10 + d ≡ n
    → n < 2 ^ 31
    → scan_int (digit_char d ∷ tail) q ≡ scan_int tail n
scan_int-digit q d n tail l e s =
    scan_int-step (digit_char d) q tail (ground arith) ∙ ap (scan_int tail) (ground (arith, e))

-- The digits of a number in base ten, read in front of a tail.
scan_int-digits :
    (f n : ℕ) (tail : List ℕ)
    → n < bound f
    → n < 2 ^ 31
    → scan_int (reverse (digits_in 10 f n) ++ tail) 0 ≡ scan_int tail n
unfolding digits_in
scan_int-digits zero n tail l s = ap (scan_int tail) (omega arith)
scan_int-digits (suc f) n tail l s = elim (ℕ_discrete n 0) [
  | yes e ↦ rw e refl
  | no ne ↦
      let back = digits_in 10 f (n / 10) in
      let c = digit_char (n % 10) in
      rw (==-false n 0 ne) (
        ap (λ (t : List ℕ). scan_int t 0)
          (ap (λ (t : List ℕ). t ++ tail) (reverse-cons c back)
            ∙ append_assoc (reverse back) (c ∷ []) tail)
        ∙ scan_int-digits f (n / 10) (c ∷ tail) (omega arith) (omega arith)
        ∙ scan_int-digit (n / 10) (n % 10) n tail (omega arith) (omega arith) s)
]

-- The text of a number that is not negative.
abbrev pub text : ℕ → List ℕ
text n = if n == 0 then b'0' ∷ [] else reverse (digits_in 10 31 n)

if_small : {A : Type 0} (n : ℕ) (x y : A) → n < 2 ^ 31 → (if is_negative n then x else y) ≡ y
if_small n x y l = let small : is_negative n ≡ false = ground arith in rw small refl

convert_to_base_string-text : (n : ℕ) → n < 2 ^ 31 → convert_to_base_string n 10 ≡ some (text n)
unfolding convert_to_base_string
convert_to_base_string-text n l = elim (ℕ_discrete n 0) [
  | yes e ↦ rw e refl
  | no ne ↦ let small : leb (2 ^ 31) n ≡ false = ground arith in ground (arith, ne, small)
]

int_text-text : (n : ℕ) → n < 2 ^ 31 → int_text n ≡ some (text n)
int_text-text n l = if_small n _ (convert_to_base_string n 10) l ∙ convert_to_base_string-text n l

type_to_buffer-text : (n : ℕ) → n < 2 ^ 31 → type_to_buffer b'd' (int n) ≡ some (text n)
unfolding type_to_buffer
type_to_buffer-text n l = int_text-text n l

scan_int-text : (n : ℕ) (tail : List ℕ) → n < 2 ^ 31 → scan_int (text n ++ tail) 0 ≡ scan_int tail n
scan_int-text n tail l = elim (ℕ_discrete n 0) [
  | yes e ↦ rw e (scan_int-digit 0 0 0 tail (omega arith) refl (omega arith))
  | no ne ↦ rw (==-false n 0 ne) (scan_int-digits 31 n tail l l)
]

abbrev pub AllInts : List ℕ → Type 0
AllInts [] = Unit {0}
AllInts (n ∷ ns) = (n < 2 ^ 31) × AllInts ns

-- One `%d` for each number, with a blank before each but the first.
abbrev pub more_ints : List ℕ → List ℕ
more_ints [] = []
more_ints (n ∷ ns) = 32 ∷ b'%' ∷ b'd' ∷ more_ints ns

abbrev pub ints : List ℕ → List ℕ
ints [] = []
ints (n ∷ ns) = b'%' ∷ b'd' ∷ more_ints ns

abbrev pub more_texts : List ℕ → List ℕ
more_texts [] = []
more_texts (n ∷ ns) = 32 ∷ (text n ++ more_texts ns)

scan_int-stop : (ns : List ℕ) (n : ℕ) → scan_int (more_texts ns) n ≡ (n, more_texts ns)
unfolding scan_int
scan_int-stop [] n = refl
scan_int-stop (m ∷ ns) n = refl

args_from-more :
    (f : ℕ) (ns : List ℕ)
    → AllInts ns
    → length (more_ints ns) ≤ f
    → args_from f (more_ints ns) (map int ns) ≡ some (more_texts ns)
unfolding args_from
args_from-more zero [] a l = refl
args_from-more zero (n ∷ ns) a l = absurd (omega arith)
args_from-more (suc f) [] a l = refl
args_from-more (suc zero) (n ∷ ns) a l = absurd (omega arith)
args_from-more (suc (suc f)) (n ∷ ns) a l =
    let rest = args_from-more f ns a.1 (omega arith) in rw (type_to_buffer-text n a.0, rest) refl

args_from-int :
    (f n : ℕ) (fmt : List ℕ) (args : List Arg) (t : List ℕ)
    → type_to_buffer b'd' (int n) ≡ some t
    → args_from (suc f) (b'%' ∷ b'd' ∷ fmt) (int n ∷ args) ≡ also t (args_from f fmt args)
unfolding args_from
args_from-int f n fmt args t e = ground (arith, e)

args_from-ints :
    (f n : ℕ) (ns : List ℕ)
    → AllInts (n ∷ ns)
    → length (more_ints ns) ≤ f
    → args_from (suc f) (ints (n ∷ ns)) (map int (n ∷ ns)) ≡ some (text n ++ more_texts ns)
args_from-ints f n ns a l =
    args_from-int f n (more_ints ns) (map int ns) (text n) (type_to_buffer-text n a.0)
    ∙ ap (also (text n)) (args_from-more f ns a.1 l)

scan_from-more :
    (ns : List ℕ) → AllInts ns → scan_from (more_ints ns) (more_texts ns) ≡ map number ns
unfolding scan_from
scan_from-more [] a = refl
scan_from-more (n ∷ ns) a =
    let e = scan_int-text n (more_texts ns) a.0 ∙ scan_int-stop ns n in
    rw e (ap (λ (vs : List Value). number n ∷ vs) (scan_from-more ns a.1))

abbrev pub texts : List ℕ → List ℕ
texts [] = []
texts (n ∷ ns) = text n ++ more_texts ns

-- With one `%d` for each number and single blanks, the buffer gets the numbers.
pub args_to_buffer-ints :
    (ns : List ℕ) → AllInts ns → args_to_buffer (ints ns) (map int ns) ≡ some (texts ns)
unfolding args_to_buffer args_from
args_to_buffer-ints [] a = refl
args_to_buffer-ints (n ∷ ns) a = args_from-ints (suc (length (more_ints ns))) n ns a (omega arith)

pub scan_from-ints : (ns : List ℕ) → AllInts ns → scan_from (ints ns) (texts ns) ≡ map number ns
unfolding scan_from
scan_from-ints [] a = refl
scan_from-ints (n ∷ ns) a =
    let e = scan_int-text n (more_texts ns) a.0 ∙ scan_int-stop ns n in
    rw e (ap (λ (vs : List Value). number n ∷ vs) (scan_from-more ns a.1))
