-- ===== src/Shell/Snake/Collide.antt =====
-- snake.c: a sound game, and two snakes that have moved without a collision.
use g21_tp2_so_1c.Base.{
  ℕ, Bool, true, false, ◌||◌, ◌==◌, Option, none, some, List, [], ◌∷◌, ◌≡◌, refl, arith, ◌⊎◌, inl,
  inr, subst, sym, Bool-cases, by_bool,
}
use g21_tp2_so_1c.Text.Words.{to_lowercase}
use g21_tp2_so_1c.Shell.Snake.{
  Position, Snake, Game, same, on, is_outside, head_of, rest_of, handle_key_presses, steer, pressed,
  check_collisions,
}
use g21_tp2_so_1c.Shell.Snake.Bodies.{InGrid, Living, Advance, same-true}

-- One or two snakes that lie in the grid, cross neither themselves nor each other, and food on a free
-- cell.
pub record IsSound (g : Game) : Type 0 where
  pub players : (g.num_of_players ≡ 1) ⊎ (g.num_of_players ≡ 2)
  pub inside : InGrid g.food
  pub first : Living g.food g.snake1.positions
  pub second : g.num_of_players ≡ 2 → Living g.food g.snake2.positions
  pub apart :
      g.num_of_players ≡ 2
      → (p : Position) → on p g.snake1.positions ≡ true
      → on p g.snake2.positions ≡ false

steer-positions :
    (up left down right c : ℕ) (s : Snake) → (steer up left down right c s).positions ≡ s.positions
unfolding steer
steer-positions up left down right c s = ground arith

IsSound-keep :
    (g g' : Game)
    → g'.num_of_players ≡ g.num_of_players
    → g'.food ≡ g.food
    → g'.snake1.positions ≡ g.snake1.positions
    → g'.snake2.positions ≡ g.snake2.positions
    → IsSound g
    → IsSound g'
IsSound-keep g g' n f a b v = record {
  players = rw n v.players;
  inside = rw f v.inside;
  first = rw (f, a) v.first;
  second = rw (n, f, b) v.second;
  apart = rw (n, a, b) v.apart;
}

handle_key_presses-IsSound : (c : ℕ) (g : Game) → IsSound g → IsSound (handle_key_presses c g)
unfolding handle_key_presses
handle_key_presses-IsSound c g v =
    by_bool IsSound (g.num_of_players == 1) _ _
      (λ e. IsSound-keep g _ refl refl (steer-positions b'w' b'a' b's' b'd' c g.snake1) refl v)
      (λ e.
        IsSound-keep g _ refl refl (steer-positions b'w' b'a' b's' b'd' c g.snake1)
          (steer-positions b'i' b'j' b'k' b'l' c g.snake2) v)

pub pressed-IsSound : (key : Option ℕ) (g : Game) → IsSound g → IsSound (pressed key g)
pressed-IsSound none g v = v
pressed-IsSound (some c) g v = handle_key_presses-IsSound (to_lowercase c) g v

InGrid-head : (h : Position) → is_outside h.x ≡ false → is_outside h.y ≡ false → InGrid h
InGrid-head h a b = (ground arith, ground arith)

-- What `checkCollisionForSnake` tests.
abbrev pub hits : List Position → Bool
hits ps = is_outside (head_of ps).x || is_outside (head_of ps).y || on (head_of ps) (rest_of ps)

hits-parts : (a b c : Bool) → a || b || c ≡ false → (a ≡ false) × (b ≡ false) × (c ≡ false)
hits-parts a b c e = ground arith

-- A snake that has moved and hits neither the wall nor itself.
pub Living-Advance :
    (food food' : Position) (ps ps' : List Position)
    → Advance food ps ps'
    → on food' ps' ≡ false
    → hits ps' ≡ false
    → Living food' ps'
Living-Advance food food' ps [] a c e = absurd (omega (arith, a.alive))
Living-Advance food food' ps (h ∷ r) a c e =
    let (ox, oy, free) = hits-parts (is_outside h.x) (is_outside h.y) (on h r) e in
    record {
      alive = omega arith;
      inside = (InGrid-head h ox oy, a.inside);
      distinct = (free, a.distinct);
      clear = c;
    }

-- A round without a collision.
pub record Clear (g : Game) : Type 0 where
  pub first : hits g.snake1.positions ≡ false
  pub second : g.num_of_players ≡ 2 → hits g.snake2.positions ≡ false
  pub first_apart :
      g.num_of_players ≡ 2 → on (head_of g.snake1.positions) g.snake2.positions ≡ false
  pub second_apart :
      g.num_of_players ≡ 2 → on (head_of g.snake2.positions) g.snake1.positions ≡ false

pub check_collisions-Clear : (g : Game) → check_collisions g ≡ 0 → Clear g
unfolding check_collisions
check_collisions-Clear g e = record {
  first = ground arith;
  second = λ n. ground arith;
  first_apart = λ n. ground arith;
  second_apart = λ n. ground arith;
}

-- The cells of a moved snake: its head, the food that was, and the cells that it had.
Advance-on :
    (food : Position) (ps ps' : List Position)
    → Advance food ps ps'
    → (p : Position) → same p (head_of ps') ≡ false
    → on p (food ∷ ps) ≡ false
    → on p ps' ≡ false
unfolding on
Advance-on food ps [] a p h n = refl
Advance-on food ps (q ∷ r) a p h n = ground (arith, a.within p)

on-no_food :
    (p food : Position) (ps : List Position)
    → on p ps ≡ false
    → same p food ≡ false
    → on p (food ∷ ps) ≡ false
unfolding on
on-no_food p food ps a b = ground arith

not_at : (p q : Position) (ps : List Position) → on q ps ≡ false → on p ps ≡ true → same p q ≡ false
not_at p q ps d o = elim (Bool-cases (same p q)) [
  | inl at ↦ cc (subst (λ (r : Position). on r ps ≡ false) (sym (same-true p q at)) d)
  | inr far ↦ far
]

-- Two snakes apart that both move stay apart, unless a head lies on the other.
pub Apart-Advance :
    (f1 f2 : Position) (a b a' b' : List Position)
    → Advance f1 a a'
    → Advance f2 b b'
    → on f1 b ≡ false
    → on f2 a' ≡ false
    → on (head_of a') b' ≡ false
    → on (head_of b') a' ≡ false
    → ((p : Position) → on p a ≡ true → on p b ≡ false)
    → (p : Position) → on p a' ≡ true
    → on p b' ≡ false
Apart-Advance f1 f2 a b a' b' u v c d e f apart p o = elim (Bool-cases (same p (head_of a'))) [
  | inl at ↦ subst (λ (q : Position). on q b' ≡ false) (sym (same-true p _ at)) e
  | inr off ↦ elim (Bool-cases (same p (head_of b'))) [
    | inl at ↦ cc (subst (λ (q : Position). on q a' ≡ false) (sym (same-true p _ at)) f)
    | inr out ↦ Advance-on f2 b b' v p out (on-no_food p f2 b (was_apart off) (not_at p f2 a' d o))
  ]
]
  where
    was_apart : same p (head_of a') ≡ false → on p b ≡ false
    was_apart off = elim (Bool-cases (on p a)) [
      | inl old ↦ apart p old
      | inr new ↦ elim (Bool-cases (same p f1)) [
        | inl at ↦ subst (λ (q : Position). on q b ≡ false) (sym (same-true p f1 at)) c
        | inr far ↦ cc (Advance-on f1 a a' u p off (on-no_food p f1 a new far))
      ]
    ]
