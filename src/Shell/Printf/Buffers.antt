-- ===== src/Shell/Printf/Buffers.antt =====
-- stdLib.c: numbers through the buffers of `printf` and of `scanf`.
use g21_tp2_so_1c.Base.{
  ℕ, zero, suc, ◌*◌, ◌/◌, ◌^◌, ◌≤◌, ◌<◌, List, [], ◌∷◌, ◌++◌, length, map, leb, ltb, true, some,
  ◌≡◌, refl, arith, ◌∙◌, ap, sym, subst, ==-false, ℕ_discrete, length-append,
}
use mathlib.Core.List.{reverse, reverse-cons}
use g21_tp2_so_1c.Shell.Numbers.{digits_in}
use g21_tp2_so_1c.Shell.Numbers.Swaps.{length-reverse}
use g21_tp2_so_1c.Shell.Printf.{
  int, number, args_to_buffer, in_buffer, print_args, read_line, scanf, scan_from, buffer_size,
}
use g21_tp2_so_1c.Shell.Printf.Read.{
  AllInts, ints, text, texts, more_texts, args_to_buffer-ints, scan_from-ints,
}

abbrev power_of_ten : ℕ → ℕ
power_of_ten zero = 1
power_of_ten (suc k) = 10 * power_of_ten k

length-digits_in : (k f n : ℕ) → n < power_of_ten k → length (digits_in 10 f n) ≤ k
unfolding digits_in
length-digits_in k zero n l = omega arith
length-digits_in zero (suc f) n l = rw (let e : n ≡ 0 = omega arith in e) (omega arith)
length-digits_in (suc k) (suc f) n l = elim (ℕ_discrete n 0) [
  | yes e ↦ rw e (omega arith)
  | no ne ↦ rw (==-false n 0 ne) (omega (arith, length-digits_in k f (n / 10) (omega arith)))
]

-- The text of an `int` from 0 on has at most ten bytes.
length-text : (n : ℕ) → n < 2 ^ 31 → length (text n) ≤ 10
length-text n l = elim (ℕ_discrete n 0) [
  | yes e ↦ rw e (omega arith)
  | no ne ↦
      rw (==-false n 0 ne)
        (omega (arith, length-reverse (digits_in 10 31 n), length-digits_in 10 31 n (omega arith)))
]

length-more_texts : (ns : List ℕ) → AllInts ns → length (more_texts ns) ≤ 11 * length ns
length-more_texts [] a = omega arith
length-more_texts (n ∷ ns) a =
    omega
      (arith, length-append (text n) (more_texts ns), length-text n a.0, length-more_texts ns a.1)

length-texts : (ns : List ℕ) → AllInts ns → length (texts ns) ≤ 11 * length ns
length-texts [] a = omega arith
length-texts (n ∷ ns) a =
    omega
      (arith, length-append (text n) (more_texts ns), length-text n a.0, length-more_texts ns a.1)

-- No byte is a newline.
abbrev OnOneLine : List ℕ → Type 0
OnOneLine [] = Unit {0}
OnOneLine (c ∷ s) = (¬ (c ≡ 10)) × OnOneLine s

OnOneLine-append : (s t : List ℕ) → OnOneLine s → OnOneLine t → OnOneLine (s ++ t)
OnOneLine-append [] t h k = k
OnOneLine-append (c ∷ s) t h k = (h.0, OnOneLine-append s t h.1 k)

OnOneLine-reverse : (s : List ℕ) → OnOneLine s → OnOneLine (reverse s)
OnOneLine-reverse [] h = tt
OnOneLine-reverse (c ∷ s) h =
    subst OnOneLine (sym (reverse-cons c s))
      (OnOneLine-append (reverse s) (c ∷ []) (OnOneLine-reverse s h.1) (h.0, tt))

digits_in-OnOneLine : (f n : ℕ) → OnOneLine (digits_in 10 f n)
unfolding digits_in
digits_in-OnOneLine zero n = tt
digits_in-OnOneLine (suc f) n = elim (ℕ_discrete n 0) [
  | yes e ↦ rw e tt
  | no ne ↦ rw (==-false n 0 ne) (λ q. ground arith, digits_in-OnOneLine f (n / 10))
]

text-OnOneLine : (n : ℕ) → OnOneLine (text n)
text-OnOneLine n = elim (ℕ_discrete n 0) [
  | yes e ↦ rw e (λ q. omega arith, tt)
  | no ne ↦ rw (==-false n 0 ne) (OnOneLine-reverse (digits_in 10 31 n) (digits_in-OnOneLine 31 n))
]

more_texts-OnOneLine : (ns : List ℕ) → OnOneLine (more_texts ns)
more_texts-OnOneLine [] = tt
more_texts-OnOneLine (n ∷ ns) = (
  λ q. omega arith,
  OnOneLine-append (text n) (more_texts ns) (text-OnOneLine n) (more_texts-OnOneLine ns),
)

texts-OnOneLine : (ns : List ℕ) → OnOneLine (texts ns)
texts-OnOneLine [] = tt
texts-OnOneLine (n ∷ ns) =
    OnOneLine-append (text n) (more_texts ns) (text-OnOneLine n) (more_texts-OnOneLine ns)

read_line-append : (s rest : List ℕ) → OnOneLine s → read_line (s ++ (10 ∷ rest)) ≡ (s, rest)
unfolding read_line
read_line-append [] rest h = refl
read_line-append (c ∷ s) rest h = rw (==-false c 10 h.0, read_line-append s rest h.1) refl

print_args-fits :
    (fmt s : List ℕ) (ns : List ℕ)
    → args_to_buffer fmt (map int ns) ≡ some s
    → length s ≤ buffer_size
    → print_args fmt (map int ns) ≡ some s
unfolding print_args
print_args-fits fmt s ns e l =
    let fits : leb (length s) buffer_size ≡ true = ground (arith, l) in
    ap in_buffer e ∙ rw fits refl

scanf-fits :
    (fmt s rest : List ℕ)
    → OnOneLine s
    → length s < buffer_size
    → scanf fmt (s ++ (10 ∷ rest)) ≡ some (scan_from fmt s, rest)
unfolding scanf
scanf-fits fmt s rest h l =
    let fits : ltb (length s) buffer_size ≡ true = ground (arith, l) in
    rw (read_line-append s rest h, fits) refl

-- What `printf` prints of at most 93 `int`s from 0 on, with `%d` and single blanks, fits in its buffer;
-- typed in with a newline, it fits in the buffer of `scanf`, which reads the numbers back with the same
-- format and leaves the input after the newline.
pub scanf-print_args :
    (ns rest : List ℕ)
    → AllInts ns
    → length ns ≤ 93
    → (s : List ℕ) × (print_args (ints ns) (map int ns) ≡ some s)
      × (scanf (ints ns) (s ++ (10 ∷ rest)) ≡ some (map number ns, rest))
scanf-print_args ns rest a l =
    let short : length (texts ns) < buffer_size = omega (arith, length-texts ns a) in
    (
      texts ns,
      print_args-fits (ints ns) (texts ns) ns (args_to_buffer-ints ns a) (omega (arith, short)),
      scanf-fits (ints ns) (texts ns) rest (texts-OnOneLine ns) short
          ∙ ap (λ (vs : List _). some (vs, rest)) (scan_from-ints ns a),
    )
