-- ===== src/Shell/Numbers/Swaps.antt =====
-- stdLib.c: the loop that swaps the ends of a buffer.
use g21_tp2_so_1c.Base.{
  ℕ, zero, suc, ◌+◌, ◌-◌, ◌/◌, ◌<◌, List, [], ◌∷◌, ◌++◌, ◌&&◌, length, get_or, set, ltb, leb, ◌==◌,
  if◌then◌else◌, ◌≡◌, refl, arith, length-set, length-append, get_or-set_self, get_or-set_ne, ap₂,
  ℕ_discrete, ◌∙◌, sym,
}
use mathlib.Core.List.{reverse, reverse-cons}
use g21_tp2_so_1c.Shell.Numbers.{swap_ends, swaps}

get_or-set :
    (xs : List ℕ) (i j v : ℕ)
    → i < length xs
    → get_or (set xs i v) j 0 ≡ (if i == j then v else get_or xs j 0)
get_or-set xs i j v l = elim (ℕ_discrete i j) [
  | yes e ↦ ground (arith, e, get_or-set_self xs i v 0)
  | no n ↦ ground (arith, n, get_or-set_ne xs v 0 n)
]

length-swap_ends : (pos i : ℕ) (xs : List ℕ) → length (swap_ends pos i xs) ≡ length xs
length-swap_ends pos i xs =
    length-set (set xs i (get_or xs (pos - i - 1) 0)) (pos - i - 1) (get_or xs i 0)
    ∙ length-set xs i (get_or xs (pos - i - 1) 0)

length-swaps : (pos n i : ℕ) (xs : List ℕ) → length (swaps pos n i xs) ≡ length xs
unfolding swaps
length-swaps pos zero i xs = refl
length-swaps pos (suc n) i xs =
    length-swaps pos n (i + 1) (swap_ends pos i xs) ∙ length-swap_ends pos i xs

get_or-swap_ends :
    (pos : ℕ) (xs : List ℕ) (i t : ℕ)
    → pos ≡ length xs
    → i + i + 1 < pos
    → get_or (swap_ends pos i xs) t 0 ≡ (
        if t == i
        then get_or xs (pos - i - 1) 0
        else if t == pos - i - 1
        then get_or xs i 0
        else get_or xs t 0)
get_or-swap_ends pos xs i t e l =
    let v = get_or xs (pos - i - 1) 0 in
    ground (
      arith,
      length-set xs i v,
      get_or-set (set xs i v) (pos - i - 1) t (get_or xs i 0),
      get_or-set xs i t v,
    )

mirror : (pos : ℕ) (xs : List ℕ) (i t : ℕ) → t < pos → pos - (pos - t - 1) - 1 ≡ t
mirror pos xs i t l = omega arith

-- The entries from `i` on are mirrored; those before it and their mirror images stay.
get_or-swaps :
    (pos n i t : ℕ) (xs : List ℕ)
    → pos ≡ length xs
    → i + n ≡ pos / 2
    → t < pos
    → get_or (swaps pos n i xs) t 0
      ≡ (if leb i t && ltb t (pos - i) then get_or xs (pos - t - 1) 0 else get_or xs t 0)
unfolding swaps
get_or-swaps pos zero i t xs e s l = elim (ℕ_discrete (pos - t - 1) t) [
  | yes m ↦ ground (arith, m)
  | no m ↦ ground (arith, m)
]
get_or-swaps pos (suc n) i t xs e s l =
    let ys = swap_ends pos i xs in
    ground (
      arith,
      get_or-swaps pos n (i + 1) t ys (e ∙ sym (length-swap_ends pos i xs)) (omega (arith, s)) l,
      get_or-swap_ends pos xs i t e (omega (arith, s, e)),
      get_or-swap_ends pos xs i (pos - t - 1) e (omega (arith, s, e)),
      mirror pos xs i t,
    )

-- Lists of one length with the same entries are equal.
ext :
    (xs ys : List ℕ)
    → length xs ≡ length ys
    → ((t : ℕ) → t < length xs → get_or xs t 0 ≡ get_or ys t 0)
    → xs ≡ ys
ext [] [] e h = refl
ext [] (y ∷ ys) e h = absurd (omega (arith, e))
ext (x ∷ xs) [] e h = absurd (omega (arith, e))
ext (x ∷ xs) (y ∷ ys) e h =
    ap₂ ◌∷◌ (h 0 (omega arith)) (ext xs ys (omega (arith, e)) (λ t l. h (suc t) (omega arith)))

get_or-append :
    (xs ys : List ℕ) (t : ℕ)
    → get_or (xs ++ ys) t 0
      ≡ (if ltb t (length xs) then get_or xs t 0 else get_or ys (t - length xs) 0)
get_or-append [] ys t = ground arith
get_or-append (x ∷ xs) ys zero = ground arith
get_or-append (x ∷ xs) ys (suc t) = ground (arith, get_or-append xs ys t)

pub length-reverse : (xs : List ℕ) → length (reverse xs) ≡ length xs
length-reverse [] = refl
length-reverse (x ∷ xs) =
    rw reverse-cons (omega (arith, length-append (reverse xs) (x ∷ []), length-reverse xs))

get_or-reverse :
    (xs : List ℕ) (t : ℕ)
    → t < length xs
    → get_or (reverse xs) t 0 ≡ get_or xs (length xs - t - 1) 0
get_or-reverse [] t l = absurd (omega arith)
get_or-reverse (x ∷ xs) t l =
    rw reverse-cons (
      ground (arith, get_or-append (reverse xs) (x ∷ []) t, length-reverse xs, get_or-reverse xs t))

-- The swaps of the ends, up to the middle, turn the whole buffer round.
pub swaps-reverse : (xs : List ℕ) → swaps (length xs) (length xs / 2) 0 xs ≡ reverse xs
swaps-reverse xs =
    ext (swaps (length xs) (length xs / 2) 0 xs) (reverse xs)
      (length-swaps (length xs) (length xs / 2) 0 xs ∙ sym (length-reverse xs))
      (λ t l.
        let b : t < length xs = omega (arith, length-swaps (length xs) (length xs / 2) 0 xs) in
        ground (
          arith,
          b,
          get_or-swaps (length xs) (length xs / 2) 0 t xs refl (omega arith) b,
          get_or-reverse xs t b,
        ))
