-- ===== src/Shell/Snake/Round.antt =====
-- snake.c: what a round keeps of the snakes and of the food.
use g21_tp2_so_1c.Base.{
  ℕ, ◌+◌, ◌-◌, ◌*◌, ◌%◌, ◌^◌, ◌<◌, true, false, Option, none, some, List, [], ◌∷◌, ◌≡◌, ◌≢◌, refl,
  arith, ◌⊎◌, inl, inr, subst, sym, by_bool,
}
use native.Mathlib.Nat.{mod-lt}
use g21_tp2_so_1c.Shell.Random.{get_random_int}
use g21_tp2_so_1c.Shell.Snake.{
  Position, Snake, Game, Player, one, two, on, grid_size, fed, place_food, check_snake, cell_of,
  is_on_snake, snake_of, with_snake, update_snake, grow_snake, check_food,
}
use g21_tp2_so_1c.Shell.Snake.Bodies.{
  InGrid, advanced_clear, Living, Advance, advanced-Advance, advanced_twice-Advance,
}

abbrev pub All {ℓ} : {A : Type 0} → (A → Type ℓ) → Option A → Type ℓ
All P none = Unit
All P (some a) = P a

-- A free cell: in the grid and on no snake that plays.
pub record Placed (g g' : Game) : Type 0 where
  pub num : g'.num_of_players ≡ g.num_of_players
  pub snake1 : g'.snake1 ≡ g.snake1
  pub snake2 : g'.snake2 ≡ g.snake2
  pub inside : InGrid g'.food
  pub free : is_on_snake g g'.food ≡ false

cell_of-InGrid : (n : ℕ) → n < grid_size * grid_size → InGrid (cell_of n)
cell_of-InGrid n h = (omega arith, omega arith)

get_random_int-lt : (tick max : ℕ) → get_random_int tick 0 max < max + 1
unfolding get_random_int
get_random_int-lt tick max =
    omega (
      arith,
      mod-lt ((tick * 1103515245 + 12345) % 2 ^ 32 % 2 ^ 31) {m = max - 0 + 1} (omega arith),
    )

pub place_food-Placed : (ticks : List ℕ) (g : Game) → All (λ r. Placed g r.0) (place_food ticks g)
unfolding place_food
place_food-Placed [] g = tt
place_food-Placed (tick ∷ ticks) g =
    let p : Position = cell_of (get_random_int tick 0 575) in
    by_bool (All (λ (r : Game × List ℕ). Placed g r.0)) (is_on_snake g p) (place_food ticks g)
      (some (record g { food = p }, ticks)) (λ e. place_food-Placed ticks g)
      (λ e. record {
        num = refl;
        snake1 = refl;
        snake2 = refl;
        inside = cell_of-InGrid _ (get_random_int-lt tick 575);
        free = e;
      })

abbrev pub other : Player → Player
other one = two
other two = one

-- What the move of a snake leaves, and where its cells are.
pub record Stepped (p : Player) (g g' : Game) : Type 0 where
  pub num : g'.num_of_players ≡ g.num_of_players
  pub still : snake_of (other p) g' ≡ snake_of (other p) g
  pub advance : Advance g.food (snake_of p g).positions (snake_of p g').positions
  pub inside : InGrid g'.food
  pub clear : on g'.food (snake_of p g').positions ≡ false
  pub clear_other :
      g.num_of_players ≢ 1
      → on g.food (snake_of (other p) g).positions ≡ false
      → on g'.food (snake_of (other p) g).positions ≡ false

pub All-map :
    {A : Type 0} (P Q : A → Type 0) (o : Option A) → ((a : A) → P a → Q a) → All P o → All Q o
All-map P Q none f h = tt
All-map P Q (some a) f h = f a h

abbrev eats : Player → Game → Game
eats p g = with_snake p (fed (update_snake (snake_of p g))) g

pub free_of_one :
    (g : Game) (p : Position) → is_on_snake g p ≡ false → on p g.snake1.positions ≡ false
free_of_one g p e = ground arith

pub free_of_two :
    (g : Game) (p : Position)
    → is_on_snake g p ≡ false
    → g.num_of_players ≢ 1
    → on p g.snake2.positions ≡ false
free_of_two g p e n = ground arith

two_play : {n : ℕ} → (two ≡ one) ⊎ (n ≢ 1) → n ≢ 1
two_play (inl e) = cc
two_play (inr n) = n

Placed-Stepped :
    (p : Player) (g g' : Game)
    → (p ≡ one) ⊎ (g.num_of_players ≢ 1)
    → InGrid g.food
    → Living g.food (snake_of p g).positions
    → check_food g.food (update_snake (snake_of p g)) ≡ true
    → Placed (eats p g) g'
    → Stepped p g g'
unfolding update_snake grow_snake check_food
Placed-Stepped one g g' who i l e q = record {
  num = q.num;
  still = q.snake2;
  advance =
      subst (λ (s : Snake). Advance g.food g.snake1.positions s.positions) (sym q.snake1)
        (advanced_twice-Advance g.food g.snake1.direction g.snake1.positions i e l);
  inside = q.inside;
  clear =
      subst (λ (s : Snake). on g'.food s.positions ≡ false) (sym q.snake1)
        (free_of_one (eats one g) g'.food q.free);
  clear_other = λ n c. free_of_two (eats one g) g'.food q.free n;
}
Placed-Stepped two g g' who i l e q = record {
  num = q.num;
  still = q.snake1;
  advance =
      subst (λ (s : Snake). Advance g.food g.snake2.positions s.positions) (sym q.snake2)
        (advanced_twice-Advance g.food g.snake2.direction g.snake2.positions i e l);
  inside = q.inside;
  clear =
      subst (λ (s : Snake). on g'.food s.positions ≡ false) (sym q.snake2)
        (free_of_two (eats two g) g'.food q.free (two_play who));
  clear_other = λ n c. free_of_one (eats two g) g'.food q.free;
}

Stepped-goes :
    (p : Player) (g : Game)
    → InGrid g.food
    → Living g.food (snake_of p g).positions
    → check_food g.food (update_snake (snake_of p g)) ≡ false
    → Stepped p g (with_snake p (update_snake (snake_of p g)) g)
unfolding update_snake check_food
Stepped-goes one g i l e = record {
  num = refl;
  still = refl;
  advance = advanced-Advance g.food g.snake1.direction g.snake1.positions l;
  inside = i;
  clear = advanced_clear g.food g.snake1.direction g.snake1.positions e l.clear;
  clear_other = λ n c. c;
}
Stepped-goes two g i l e = record {
  num = refl;
  still = refl;
  advance = advanced-Advance g.food g.snake2.direction g.snake2.positions l;
  inside = i;
  clear = advanced_clear g.food g.snake2.direction g.snake2.positions e l.clear;
  clear_other = λ n c. c;
}

pub check_snake-Stepped :
    (p : Player) (ticks : List ℕ) (g : Game)
    → (p ≡ one) ⊎ (g.num_of_players ≢ 1)
    → InGrid g.food
    → Living g.food (snake_of p g).positions
    → All (λ r. Stepped p g r.0) (check_snake p ticks g)
unfolding check_snake
check_snake-Stepped p ticks g who i l =
    by_bool (All (λ (r : Game × List ℕ). Stepped p g r.0))
      (check_food g.food (update_snake (snake_of p g))) _ _
      (λ e.
        All-map (λ (r : Game × List ℕ). Placed (eats p g) r.0) (λ r. Stepped p g r.0)
          (place_food ticks (eats p g)) (λ r q. Placed-Stepped p g r.0 who i l e q)
          (place_food-Placed ticks (eats p g)))
      (λ e. Stepped-goes p g i l e)
