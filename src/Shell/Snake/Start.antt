-- ===== src/Shell/Snake/Start.antt =====
-- snake.c: the start of a game, and all that follows.
use g21_tp2_so_1c.Base.{
  ℕ, true, false, ◌==◌, Option, some, List, [], ◌∷◌, ◌≡◌, refl, arith, ◌⊎◌, subst, sym, ◌∙◌,
  by_bool,
}
use g21_tp2_so_1c.Shell.Snake.{
  Position, pos, Game, on, place_food, play, await_start, initialize_snakes, initialize_snake,
  initial_positions,
}
use g21_tp2_so_1c.Shell.Snake.Round.{
  All, Placed, place_food-Placed, free_of_one, free_of_two, All-map,
}
use g21_tp2_so_1c.Shell.Snake.Play.{play-IsSound}
use g21_tp2_so_1c.Shell.Snake.Collide.{IsSound}

start_one : List Position
start_one = pos 12 14 ∷ pos 11 14 ∷ pos 10 14 ∷ []

start_two : List Position
start_two = pos 12 10 ∷ pos 11 10 ∷ pos 10 10 ∷ []

start_apart : (p : Position) → on p start_one ≡ true → on p start_two ≡ false
unfolding on start_one start_two
start_apart p o = ground arith

Placed-start :
    (g g' : Game)
    → (g.num_of_players ≡ 1) ⊎ (g.num_of_players ≡ 2)
    → g.snake1.positions ≡ start_one
    → (g.num_of_players ≡ 2 → g.snake2.positions ≡ start_two)
    → Placed g g'
    → IsSound g'
unfolding on start_one start_two
Placed-start g g' n a b q = record {
  players = rw q.num n;
  inside = q.inside;
  first = rw q.snake1 (
      rw a (record {
        alive = omega arith;
        inside = omega arith;
        distinct = (refl, (refl, (refl, tt)));
        clear =
            subst (λ (ps : List Position). on g'.food ps ≡ false) a (free_of_one g g'.food q.free);
      }));
  second = λ m.
      let two : g.num_of_players ≡ 2 = sym q.num ∙ m in
      rw q.snake2 (
        rw (b two) (record {
          alive = omega arith;
          inside = omega arith;
          distinct = (refl, (refl, (refl, tt)));
          clear =
              subst (λ (ps : List Position). on g'.food ps ≡ false) (b two)
                (free_of_two g g'.food q.free (omega (arith, two)));
        }));
  apart = λ m.
      let two : g.num_of_players ≡ 2 = sym q.num ∙ m in
      rw (q.snake1, q.snake2, a, b two) (start_apart);
}

initialize_snakes-Placed :
    (g g' : Game)
    → (g.num_of_players ≡ 1) ⊎ (g.num_of_players ≡ 2)
    → Placed (initialize_snakes g) g'
    → IsSound g'
unfolding initialize_snakes initialize_snake initial_positions start_one start_two
initialize_snakes-Placed g g' n =
    by_bool (λ (h : Game). Placed h g' → IsSound g') (g.num_of_players == 1) _ _
      (λ e q. Placed-start _ g' n refl (λ m. absurd (ground arith)) q)
      (λ e q. Placed-start _ g' n refl (λ m. refl) q)

await_start-IsSound :
    (ticks : List ℕ) (g : Game)
    → (g.num_of_players ≡ 1) ⊎ (g.num_of_players ≡ 2)
    → All (λ r. IsSound r.0) (await_start ticks g)
unfolding await_start
await_start-IsSound ticks g n =
    All-map (λ (r : Game × List ℕ). Placed (initialize_snakes g) r.0) (λ r. IsSound r.0)
      (place_food ticks (initialize_snakes g)) (λ r q. initialize_snakes-Placed g r.0 n q)
      (place_food-Placed ticks (initialize_snakes g))

-- From the start of a game, whatever the keys and the numbers drawn, as long as nobody has collided the
-- snakes lie in the grid, none crosses itself or the other, and the food lies on a free cell.
pub play-await_start :
    (ticks later : List ℕ) (rounds : List (Option ℕ × List ℕ)) (g g1 g2 : Game)
    → (g.num_of_players ≡ 1) ⊎ (g.num_of_players ≡ 2)
    → await_start ticks g ≡ some (g1, later)
    → play rounds g1 ≡ some (g2, 0)
    → IsSound g2
play-await_start ticks later rounds g g1 g2 n a p =
    subst (All (λ (r : Game × ℕ). r.1 ≡ 0 → IsSound r.0)) p
      (play-IsSound rounds g1
        (subst (All (λ (r : Game × List ℕ). IsSound r.0)) a (await_start-IsSound ticks g n)))
      refl
