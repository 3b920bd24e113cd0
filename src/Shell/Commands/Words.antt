-- ===== src/Shell/Commands/Words.antt =====
-- shellFunctions.c: the words of a command line.
use g21_tp2_so_1c.Base.{
  ℕ, zero, suc, ◌+◌, ◌-◌, ◌≤◌, ◌<◌, ◌≡◌, ◌≢◌, refl, ap, ap₂, sym, ◌∙◌, arith, List, [], ◌∷◌, ◌++◌,
  Bool, true, false, length, map, leb, ◌==◌, ==-false, if◌then◌else◌, length-append, dec_lt,
  replicate,
}
use mathlib.Core.List.{append_assoc, append-nil}
use g21_tp2_so_1c.Text.Words.{skip_blanks}
use g21_tp2_so_1c.Shell.Commands.{
  scan, stop, before, is_background, is_word_start, next_byte, string_of, string_at, command_of,
  fill_command_and_args, max_args,
}

-- A byte of a word: neither the terminator nor a blank nor `&`.
abbrev pub IsWordByte : ℕ → Type 0
IsWordByte c = (c ≢ 0) × (c ≢ 32) × (c ≢ b'&')

abbrev pub AllWordBytes : List ℕ → Type 0
AllWordBytes [] = Unit {0}
AllWordBytes (c ∷ s) = IsWordByte c × AllWordBytes s

abbrev pub IsWord : List ℕ → Type 0
IsWord w = (0 < length w) × AllWordBytes w

abbrev pub AllWords : List (List ℕ) → Type 0
AllWords [] = Unit {0}
AllWords (w ∷ ws) = IsWord w × AllWords ws

-- The words, each after the byte `c`, and the end of the line: nothing, or a blank and `&`.
abbrev pub joined : ℕ → List (List ℕ) → List ℕ → List ℕ
joined c [] end = end
joined c (w ∷ ws) end = c ∷ (w ++ joined c ws end)

abbrev pub line_end : Bool → List ℕ
line_end true = []
line_end false = 32 ∷ b'&' ∷ []

abbrev left_end : Bool → List ℕ
left_end true = []
left_end false = 0 ∷ 0 ∷ []

abbrev places : ℕ → List (List ℕ) → List ℕ
places i [] = []
places i (w ∷ ws) = (i + 1) ∷ places (i + 1 + length w) ws

-- An `&` at the end takes the room of one argument.
abbrev pub room : Bool → ℕ
room true = max_args
room false = max_args - 1

is_word_start_word : (v : List ℕ) (s : List ℕ) → IsWord v → is_word_start (v ++ s) ≡ true
is_word_start_word [] s w = absurd (omega (arith, w.0))
is_word_start_word (c ∷ v) s w = ground arith

module _ {ℓ} {A : Type ℓ} (x y z : A) where
  when_both : (b c : Bool) → b ≡ true → c ≡ true → (if b then if c then x else y else z) ≡ x
  when_both b c e f = rw (e, f) refl

  when_first : (b c : Bool) → b ≡ true → c ≡ false → (if b then if c then x else y else z) ≡ y
  when_first b c e f = rw (e, f) refl

  when_neither : (b c : Bool) → b ≡ false → c ≡ false → (if b then x else if c then y else z) ≡ z
  when_neither b c e f = rw (e, f) refl

-- Only the last argument can fill the table, and only where no `&` follows.
last_place :
    (fg : Bool) (vs : List (List ℕ)) (n : ℕ)
    → max_args ≤ n + 1
    → n + suc (length vs) ≤ room fg
    → (fg ≡ true) × (vs ≡ [])
last_place true [] n h l = (refl, refl)
last_place true (v ∷ vs) n h l = absurd (omega arith)
last_place false vs n h l = absurd (omega arith)

stop_eq :
    (bytes : List ℕ) (xs ys : List ℕ) (fg : Bool) → xs ≡ ys → stop bytes xs fg ≡ stop bytes ys fg
stop_eq bytes xs ys fg e = ap (λ (l : List ℕ). stop bytes l fg) e

is_background_word : (c : ℕ) (s : List ℕ) → IsWordByte c → is_background c s ≡ false
is_background_word c s w = ground arith

scan-joined :
    (fg : Bool) (ws : List (List ℕ)) (w : List ℕ) (i : ℕ) (args : List ℕ)
    → AllWords ws
    → AllWordBytes w
    → length args + length ws ≤ room fg
    → scan (w ++ joined 32 ws (line_end fg)) i args
      ≡ stop (w ++ joined 0 ws (left_end fg)) (args ++ places (i + length w) ws) fg
unfolding scan
scan-joined true [] [] i args a b l = stop_eq [] _ _ true (sym (append-nil args))
scan-joined false [] [] i args a b l = stop_eq (0 ∷ 0 ∷ []) _ _ false (sym (append-nil args))
scan-joined fg (v ∷ vs) [] i args a b l = elim (dec_lt (length args + 1) max_args) [
  | yes more ↦
      when_first _ _ _ (is_word_start (v ++ joined 32 vs (line_end fg)))
        (leb max_args (length args + 1)) (is_word_start_word v _ a.0) (ground arith)
      ∙ ap (before 0) (
          scan-joined fg vs v (i + 1) (args ++ ((i + 1) ∷ [])) a.1 a.0.1
            (omega (arith, length-append args ((i + 1) ∷ []))))
      ∙ stop_eq _ _ _ fg (
          append_assoc args ((i + 1) ∷ []) (places (i + 1 + length v) vs)
          ∙ ap (λ (k : ℕ). args ++ ((k + 1) ∷ places (k + 1 + length v) vs)) (omega arith))
  | no full ↦
      let (here, last) = last_place fg vs (length args) (omega arith) (omega arith) in
      when_both _ _ _ (is_word_start (v ++ joined 32 vs (line_end fg)))
        (leb max_args (length args + 1)) (is_word_start_word v _ a.0) (ground arith)
      ∙ rw (here, last) (stop_eq _ _ _ true (ap (λ (k : ℕ). args ++ ((k + 1) ∷ [])) (omega arith)))
]
scan-joined fg ws (c ∷ w) i args a b l =
    when_neither _ _ _ (is_background c (w ++ joined 32 ws (line_end fg))) (c == 32)
      (is_background_word c (w ++ joined 32 ws (line_end fg)) b.0) (==-false c 32 b.0.1)
    ∙ ap (before c) (scan-joined fg ws w (i + 1) args a b.1 l)
    ∙ stop_eq _ _ _ fg (ap (λ (k : ℕ). args ++ places k ws) (omega arith))

-- A word, read in front of what ends a string.
string_of-word :
    (w : List ℕ) (s : List ℕ) → AllWordBytes w → next_byte s ≡ 0 → string_of (w ++ s) ≡ w
string_of-word [] [] a e = refl
string_of-word [] (c ∷ s) a e = ground arith
string_of-word (c ∷ w) s a e =
    rw (==-false c 0 a.0.0) (ap (λ (l : List ℕ). c ∷ l) (string_of-word w s a.1 e))

string_at-append : (p s : List ℕ) (n : ℕ) → string_at (p ++ s) (length p + n) ≡ string_at s n
string_at-append [] s n = ap (string_at s) (omega arith)
string_at-append (c ∷ p) s n =
    let e : suc (length p) + n ≡ suc (length p + n) = omega arith in rw e (string_at-append p s n)

next_byte-joined : (ws : List (List ℕ)) (fg : Bool) → next_byte (joined 0 ws (left_end fg)) ≡ 0
next_byte-joined [] true = refl
next_byte-joined [] false = refl
next_byte-joined (w ∷ ws) fg = refl

map-string_at :
    (p : List ℕ) (ws : List (List ℕ)) (fg : Bool)
    → AllWords ws
    → map (string_at (p ++ joined 0 ws (left_end fg))) (places (length p) ws) ≡ ws
map-string_at p [] fg a = refl
map-string_at p (w ∷ ws) fg a =
    let rest = joined 0 ws (left_end fg) in
    let here : string_at (p ++ (0 ∷ (w ++ rest))) (length p + 1) ≡ string_of (w ++ rest) =
      string_at-append p (0 ∷ (w ++ rest)) 1 in
    ap₂ ◌∷◌ (here ∙ string_of-word w rest a.0.1 (next_byte-joined ws fg)) (
      ap₂ (λ (b : List ℕ) (k : ℕ). map (string_at b) (places k ws))
        (sym (append_assoc p (0 ∷ w) rest)) (omega (arith, length-append p (0 ∷ w)))
      ∙ map-string_at (p ++ (0 ∷ w)) ws fg a.1)

skip_blanks-word : (w s : List ℕ) → IsWord w → skip_blanks (w ++ s) ≡ w ++ s
skip_blanks-word [] s w = absurd (omega (arith, w.0))
skip_blanks-word (c ∷ v) s w = rw (==-false c 32 w.1.0.1) refl

skip_blanks-replicate : (n : ℕ) (s : List ℕ) → skip_blanks (replicate n 32 ++ s) ≡ skip_blanks s
skip_blanks-replicate zero s = refl
skip_blanks-replicate (suc n) s = skip_blanks-replicate n s

-- A line of words with one blank between two, blanks before them and perhaps ` &` after them, is split
-- into its command and its arguments, where these are at most five, or four with the `&`; the command
-- runs in the foreground unless the `&` is there.
pub fill_command_and_args-joined :
    (n : ℕ) (w : List ℕ) (ws : List (List ℕ)) (fg : Bool)
    → IsWord w
    → AllWords ws
    → length ws ≤ room fg
    → fill_command_and_args (replicate n 32 ++ (w ++ joined 32 ws (line_end fg)))
      ≡ record { command = w; args = ws; foreground = fg }
unfolding fill_command_and_args
fill_command_and_args-joined n w ws fg a b l =
    ap (λ (s : List ℕ). command_of (scan s 0 []))
      (skip_blanks-replicate n (w ++ joined 32 ws (line_end fg)) ∙ skip_blanks-word w _ a)
    ∙ ap command_of (scan-joined fg ws w 0 [] b a.1 (omega arith))
    ∙ ap (λ (k : ℕ). command_of (stop (w ++ joined 0 ws (left_end fg)) (places k ws) fg))
        (omega arith)
    ∙ ap₂ (λ (c : List ℕ) (r : List (List ℕ)). record { command = c; args = r; foreground = fg })
        (string_of-word w (joined 0 ws (left_end fg)) a.1 (next_byte-joined ws fg))
        (map-string_at w ws fg b)
