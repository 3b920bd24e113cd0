-- ===== src/Shell/SnakeTests.antt =====
-- snake.c: a game of two, with its theorems at concrete states.
use g21_tp2_so_1c.Base.{ℕ, ◌*◌, ◌≤◌, List, [], ◌∷◌, Option, some, ◌≡◌, refl, length, inr}
use g21_tp2_so_1c.Shell.Random.{get_random_int}
use g21_tp2_so_1c.Shell.Snake.{
  Game, Snake, Position, pos, await_start, initialize_snakes, initialize_snake, initial_positions,
  place_food, on, play, play_round, handle_key_presses, steer, check_snakes, check_snake,
  update_snake, grow_snake, check_food, follow, check_collisions, check_collision_for_snake,
  check_inter_snake_collision, green, blue, minus_one, cell_of, grid_size,
}
use g21_tp2_so_1c.Shell.Snake.Collide.{IsSound}
use g21_tp2_so_1c.Shell.Snake.Start.{play-await_start}
use g21_tp2_so_1c.Shell.Snake.Bound.{play-grow_snake}

abbrev nobody : Snake
nobody = record { positions = []; direction = pos 0 0; color = 0; score = 0 }

abbrev before : Game
before = record { num_of_players = 2; snake1 = nobody; snake2 = nobody; food = pos 0 0 }

abbrev first : List Position → Position → Snake
first ps d = record { positions = ps; direction = d; color = green; score = 0 }

abbrev second : List Position → Snake
second ps = record { positions = ps; direction = pos 1 0; color = blue; score = 0 }

-- The number drawn at tick 7 gives the cell of the food.
abbrev placed : Game
placed = record {
  num_of_players = 2;
  snake1 = first (pos 12 14 ∷ pos 11 14 ∷ pos 10 14 ∷ []) (pos 1 0);
  snake2 = second (pos 12 10 ∷ pos 11 10 ∷ pos 10 10 ∷ []);
  food = cell_of (get_random_int 7 0 575);
}

starts : await_start (7 ∷ []) before ≡ some (placed, [])
unfolding await_start initialize_snakes initialize_snake initial_positions place_food on
    get_random_int
starts = refl

-- The first player presses `W` and goes up.
abbrev later : Game
later = record placed {
  snake1 = first (pos 12 13 ∷ pos 12 14 ∷ pos 11 14 ∷ []) (pos 0 minus_one);
  snake2 = second (pos 13 10 ∷ pos 12 10 ∷ pos 11 10 ∷ []);
}

abbrev one_key : List (Option ℕ × List ℕ)
one_key = (some b'W', []) ∷ []

plays : play one_key placed ≡ some (later, 0)
unfolding play play_round handle_key_presses steer check_snakes check_snake update_snake grow_snake
    check_food follow check_collisions check_collision_for_snake check_inter_snake_collision on
    place_food get_random_int
plays = refl

play-await_start_example : IsSound later
play-await_start_example =
    play-await_start (7 ∷ []) [] one_key before placed later (inr refl) starts plays

play-grow_snake_example :
    (length (grow_snake (update_snake later.snake1)).positions ≤ grid_size * grid_size)
    × (later.num_of_players ≡ 2
        → length (grow_snake (update_snake later.snake2)).positions ≤ grid_size * grid_size)
play-grow_snake_example =
    play-grow_snake (7 ∷ []) [] one_key before placed later (inr refl) starts plays
