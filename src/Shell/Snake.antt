-- ===== src/Shell/Snake.antt =====
-- 4_Userland/shellCodeModule/4_snake/snake.c: the state of the game and its rounds. An `int` is its
-- 32-bit pattern. A snake is the list of the first `length` entries of its array.
pub mod Bodies
pub mod Round
pub mod Collide
pub mod Play
pub mod Start
pub mod Bound
use g21_tp2_so_1c.Base.{
  ℕ, zero, suc, ◌+◌, ◌-◌, ◌*◌, ◌/◌, ◌%◌, ◌^◌, Bool, true, false, not, ◌&&◌, ◌||◌, ltb, leb, ◌==◌,
  if◌then◌else◌, Option, none, some, List, [], ◌∷◌, ◌++◌,
}
use g21_tp2_so_1c.Text.Words.{to_lowercase}
use g21_tp2_so_1c.Shell.Random.{get_random_int}

abbrev pub grid_size : ℕ
grid_size = 24

abbrev pub int_mod : ℕ
int_mod = 2 ^ 32

abbrev pub minus_one : ℕ
minus_one = int_mod - 1

pub record Position : Type 0 where
  pub x : ℕ
  pub y : ℕ

pub record Snake : Type 0 where
  pub positions : List Position
  pub direction : Position
  pub color : ℕ
  pub score : ℕ

pub record Game : Type 0 where
  pub num_of_players : ℕ
  pub snake1 : Snake
  pub snake2 : Snake
  pub food : Position

abbrev pub pos : ℕ → ℕ → Position
pos a b = record { x = a; y = b }

abbrev pub same : Position → Position → Bool
same p q = p.x == q.x && p.y == q.y

-- The search of a position among the entries of a snake.
unfoldable pub on : Position → List Position → Bool
on p [] = false
on p (q ∷ ps) = same p q || on p ps

-- `positions[i] = positions[i-1]` from the tail down, with `q` for the entry before the first.
unfoldable pub follow : Position → List Position → List Position
follow q [] = []
follow q (p ∷ ps) = q ∷ follow p ps

abbrev pub moved : Position → Position → Position
moved d p = record { x = (p.x + d.x) % int_mod; y = (p.y + d.y) % int_mod }

abbrev pub advanced : Position → List Position → List Position
advanced d [] = []
advanced d (p ∷ ps) = follow (moved d p) (p ∷ ps)

unfoldable pub update_snake : Snake → Snake
unfolding follow
update_snake s = record s { positions = advanced s.direction s.positions }

-- The last entry once more.
abbrev pub grown : List Position → List Position
grown [] = []
grown (p ∷ []) = p ∷ p ∷ []
grown (p ∷ q ∷ ps) = p ∷ grown (q ∷ ps)

unfoldable pub grow_snake : Snake → Snake
grow_snake s = record s { positions = grown s.positions }

abbrev pub head_of : List Position → Position
head_of [] = pos 0 0
head_of (p ∷ ps) = p

abbrev pub rest_of : List Position → List Position
rest_of [] = []
rest_of (p ∷ ps) = ps

-- `x < 0 || x >= GRID_SIZE`; a negative `int` is at least 2^31.
abbrev pub is_outside : ℕ → Bool
is_outside a = leb (2 ^ 31) a || leb grid_size a

unfoldable pub check_collision_for_snake : Snake → Bool
unfolding on
check_collision_for_snake s =
    let h = head_of s.positions in is_outside h.x || is_outside h.y || on h (rest_of s.positions)

unfoldable pub check_inter_snake_collision : Snake → Snake → Bool
unfolding on
check_inter_snake_collision a b = on (head_of a.positions) b.positions

-- 0 for none, 1 and 2 for the snake that loses.
unfoldable pub check_collisions : Game → ℕ
unfolding check_collision_for_snake check_inter_snake_collision
check_collisions g =
    if check_collision_for_snake g.snake1
    then 1
    else if g.num_of_players == 1
    then 0
    else if check_collision_for_snake g.snake2
    then 2
    else if check_inter_snake_collision g.snake1 g.snake2
    then 1
    else if check_inter_snake_collision g.snake2 g.snake1
    then 2
    else 0

unfoldable pub check_food : Position → Snake → Bool
check_food food s = same (head_of s.positions) food

abbrev pub cell_of : ℕ → Position
cell_of n = record { x = n / grid_size; y = n % grid_size }

abbrev pub is_on_snake : Game → Position → Bool
is_on_snake g p =
    on p g.snake1.positions || (not (g.num_of_players == 1) && on p g.snake2.positions)

-- The loop of `placeFood`: one number is drawn at each tick of the list, up to a free cell. `none` is a
-- loop that goes on after them.
unfoldable pub place_food : List ℕ → Game → Option (Game × List ℕ)
unfolding on get_random_int
place_food [] g = none
place_food (tick ∷ ticks) g =
    let p = cell_of (get_random_int tick 0 (grid_size * grid_size - 1)) in
    let again = place_food ticks g in
    if is_on_snake g p then again else some (record g { food = p }, ticks)

pub data Player : Type 0 where
  one two : Player

abbrev pub snake_of : Player → Game → Snake
snake_of one g = g.snake1
snake_of two g = g.snake2

abbrev pub with_snake : Player → Snake → Game → Game
with_snake one s g = record g { snake1 = s }
with_snake two s g = record g { snake2 = s }

abbrev pub fed : Snake → Snake
fed s = let t = update_snake (grow_snake s) in record t { score = (t.score + 1) % int_mod }

unfoldable pub check_snake : Player → List ℕ → Game → Option (Game × List ℕ)
unfolding update_snake grow_snake check_food place_food
check_snake p ticks g =
    let s = update_snake (snake_of p g) in
    if check_food g.food s
    then place_food ticks (with_snake p (fed s) g)
    else some (with_snake p s g, ticks)

abbrev pub turn_to : ℕ → ℕ → Snake → Snake
turn_to a b s = record s { direction = pos a b }

-- The keys of a player, up, left, down and right: a snake does not turn back.
unfoldable pub steer : ℕ → ℕ → ℕ → ℕ → ℕ → Snake → Snake
steer up left down right c s =
    if c == up
    then if s.direction.y == 1 then s else turn_to 0 minus_one s
    else if c == left
    then if s.direction.x == 1 then s else turn_to minus_one 0 s
    else if c == down
    then if s.direction.y == minus_one then s else turn_to 0 1 s
    else if c == right
    then if s.direction.x == minus_one then s else turn_to 1 0 s
    else s

unfoldable pub handle_key_presses : ℕ → Game → Game
unfolding steer
handle_key_presses c g =
    let g1 = record g { snake1 = steer b'w' b'a' b's' b'd' c g.snake1 } in
    if g.num_of_players == 1
    then g1
    else record g1 { snake2 = steer b'i' b'j' b'k' b'l' c g.snake2 }

abbrev pub pressed : Option ℕ → Game → Game
pressed none g = g
pressed (some c) g = handle_key_presses (to_lowercase c) g

unfoldable pub check_snakes : List ℕ → Game → Option (Game × List ℕ)
unfolding check_snake
check_snakes ticks g = elim (check_snake one ticks g) [
  | none ↦ none
  | some (g1, later) ↦ elim (g1.num_of_players == 2) [
    | true ↦ check_snake two later g1
    | false ↦ some (g1, later)
  ]
]

-- One round of `play`, with the key that was read, if any: the game after it, and the result of
-- `checkCollisions`, which ends the game unless it is 0.
unfoldable pub play_round : Option ℕ → List ℕ → Game → Option (Game × ℕ)
unfolding handle_key_presses check_snakes check_collisions
play_round key ticks g = elim (check_snakes ticks (pressed key g)) [
  | none ↦ none
  | some (g1, later) ↦ some (g1, check_collisions g1)
]

abbrev pub initial_snake_length : ℕ
initial_snake_length = 3

unfoldable pub initial_positions : ℕ → ℕ → ℕ → List Position
initial_positions zero i offset = []
initial_positions (suc n) i offset =
    record {
      x = (grid_size / 2 + int_mod - i) % int_mod;
      y = (grid_size / 2 + int_mod - offset) % int_mod;
    }
    ∷ initial_positions n (i + 1) offset

unfoldable pub initialize_snake : ℕ → ℕ → Snake
unfolding initial_positions
initialize_snake color offset = record {
  positions = initial_positions initial_snake_length 0 offset;
  direction = pos 1 0;
  color = color;
  score = 0;
}

abbrev pub initial_spacing : ℕ
initial_spacing = 4

abbrev pub green : ℕ
green = 0x32CD32

abbrev pub blue : ℕ
blue = 0x1E90FF

unfoldable pub initialize_snakes : Game → Game
unfolding initialize_snake
initialize_snakes g =
    let g1 = record g { snake1 = initialize_snake green (int_mod - initial_spacing / 2) } in
    if g.num_of_players == 1
    then g1
    else record g1 { snake2 = initialize_snake blue (initial_spacing / 2) }

-- `awaitStart`, once the space bar is pressed.
unfoldable pub await_start : List ℕ → Game → Option (Game × List ℕ)
unfolding initialize_snakes place_food
await_start ticks g = place_food ticks (initialize_snakes g)

-- What the players leave of a game: the rounds of `play`, one for each entry of the list, up to the
-- first collision.
unfoldable pub play : List (Option ℕ × List ℕ) → Game → Option (Game × ℕ)
unfolding play_round
play [] g = some (g, 0)
play ((key, ticks) ∷ rounds) g = elim (play_round key ticks g) [
  | none ↦ none
  | some (g1, hit) ↦ elim (hit == 0) [ true ↦ play rounds g1 | false ↦ some (g1, hit) ]
]
