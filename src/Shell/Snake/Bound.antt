-- ===== src/Shell/Snake/Bound.antt =====
-- snake.c: how long snakes can get, and the array of their cells.
use g21_tp2_so_1c.Base.{
  ℕ, zero, suc, ◌+◌, ◌*◌, ◌<◌, ◌≤◌, Bool, true, false, ◌||◌, ◌==◌, if◌then◌else◌, List, [], ◌∷◌,
  ◌++◌, ◌≡◌, refl, arith, length, length-append, map, ℕ_discrete, ap, Option, some, ◌⊎◌,
}
use g21_tp2_so_1c.Shell.Snake.{
  Position, Snake, Game, on, follow, moved, advanced, grown, update_snake, grow_snake, await_start,
  play, grid_size,
}
use g21_tp2_so_1c.Shell.Snake.Start.{play-await_start}
use g21_tp2_so_1c.Shell.Snake.Bodies.{InGrid, AllInGrid, IsDistinct}
use g21_tp2_so_1c.Shell.Snake.Collide.{IsSound}

abbrev has : ℕ → List ℕ → Bool
has n [] = false
has n (x ∷ xs) = x == n || has n xs

abbrev Differ : List ℕ → Type 0
Differ [] = Unit {0}
Differ (x ∷ xs) = (has x xs ≡ false) × Differ xs

abbrev AllBelow : ℕ → List ℕ → Type 0
AllBelow n [] = Unit {0}
AllBelow n (x ∷ xs) = (x < n) × AllBelow n xs

abbrev remove : ℕ → List ℕ → List ℕ
remove n [] = []
remove n (x ∷ xs) = if x == n then remove n xs else x ∷ remove n xs

length-remove_none : (n : ℕ) (xs : List ℕ) → has n xs ≡ false → length (remove n xs) ≡ length xs
length-remove_none n [] h = refl
length-remove_none n (x ∷ xs) h = ground (arith, length-remove_none n xs)

length-remove : (n : ℕ) (xs : List ℕ) → Differ xs → length xs ≤ length (remove n xs) + 1
length-remove n [] d = omega arith
length-remove n (x ∷ xs) d = elim (ℕ_discrete x n) [
  | yes e ↦ ground (arith, e, length-remove_none n xs)
  | no ne ↦ ground (arith, ne, length-remove n xs d.1)
]

has-remove : (m n : ℕ) (xs : List ℕ) → has m xs ≡ false → has m (remove n xs) ≡ false
has-remove m n [] h = refl
has-remove m n (x ∷ xs) h = ground (arith, has-remove m n xs)

Differ-remove : (n : ℕ) (xs : List ℕ) → Differ xs → Differ (remove n xs)
Differ-remove n [] d = tt
Differ-remove n (x ∷ xs) d = ground (arith, Differ-remove n xs d.1, has-remove x n xs d.0)

AllBelow-remove : (n : ℕ) (xs : List ℕ) → AllBelow (suc n) xs → AllBelow n (remove n xs)
AllBelow-remove n [] b = tt
AllBelow-remove n (x ∷ xs) b = ground (arith, AllBelow-remove n xs b.1)

-- Different numbers below `n` are at most `n`.
length-le_of_Differ : (n : ℕ) (xs : List ℕ) → Differ xs → AllBelow n xs → length xs ≤ n
length-le_of_Differ zero [] d b = omega arith
length-le_of_Differ zero (x ∷ xs) d b = absurd (omega (arith, b.0))
length-le_of_Differ (suc n) xs d b = omega (
  arith,
  length-remove n xs d,
  length-le_of_Differ n (remove n xs) (Differ-remove n xs d) (AllBelow-remove n xs b),
)

abbrev code : Position → ℕ
code p = p.x * grid_size + p.y

has-code :
    (p : Position) (ps : List Position)
    → InGrid p
    → AllInGrid ps
    → on p ps ≡ false
    → has (code p) (map code ps) ≡ false
unfolding on
has-code p [] i a h = refl
has-code p (q ∷ ps) i a h = ground (arith, has-code p ps i a.1)

Differ-code : (ps : List Position) → AllInGrid ps → IsDistinct ps → Differ (map code ps)
Differ-code [] a d = tt
Differ-code (p ∷ ps) a d = (has-code p ps a.0 a.1 d.0, Differ-code ps a.1 d.1)

AllBelow-code : (ps : List Position) → AllInGrid ps → AllBelow (grid_size * grid_size) (map code ps)
AllBelow-code [] a = tt
AllBelow-code (p ∷ ps) a = (omega (arith, a.0), AllBelow-code ps a.1)

length-map-code : (ps : List Position) → length (map code ps) ≡ length ps
length-map-code [] = refl
length-map-code (p ∷ ps) = ap suc (length-map-code ps)

length-le_grid :
    (ps : List Position) → AllInGrid ps → IsDistinct ps → length ps ≤ grid_size * grid_size
length-le_grid ps a d = omega (
  arith,
  length-map-code ps,
  length-le_of_Differ (grid_size * grid_size) (map code ps) (Differ-code ps a d)
      (AllBelow-code ps a),
)

on-append :
    (p : Position) (ps qs : List Position)
    → on p ps ≡ false
    → on p qs ≡ false
    → on p (ps ++ qs) ≡ false
unfolding on
on-append p [] qs h k = k
on-append p (r ∷ ps) qs h k = ground (arith, on-append p ps qs)

AllInGrid-append : (ps qs : List Position) → AllInGrid ps → AllInGrid qs → AllInGrid (ps ++ qs)
AllInGrid-append [] qs h k = k
AllInGrid-append (p ∷ ps) qs h k = (h.0, AllInGrid-append ps qs h.1 k)

IsDistinct-append :
    (ps qs : List Position)
    → IsDistinct ps
    → IsDistinct qs
    → ((p : Position) → on p ps ≡ true → on p qs ≡ false)
    → IsDistinct (ps ++ qs)
unfolding on
IsDistinct-append [] qs d e a = e
IsDistinct-append (p ∷ ps) qs d e a = (
  on-append p ps qs d.0 (a p (ground arith)),
  IsDistinct-append ps qs d.1 e (λ q o. a q (ground arith)),
)

-- The snakes of a sound game and the food fit in the cells of the grid.
snakes_fit :
    (g : Game)
    → IsSound g
    → (length g.snake1.positions < grid_size * grid_size)
      × (g.num_of_players ≡ 2
          → length g.snake1.positions + length g.snake2.positions < grid_size * grid_size)
snakes_fit g v = (
  length-le_grid (g.food ∷ g.snake1.positions) (v.inside, v.first.inside)
      (v.first.clear, v.first.distinct),
  λ n.
      let b = v.second n in
      omega (
        arith,
        length-append g.snake1.positions g.snake2.positions,
        length-le_grid (g.food ∷ (g.snake1.positions ++ g.snake2.positions))
            (
              v.inside,
              AllInGrid-append g.snake1.positions g.snake2.positions v.first.inside b.inside,
            )
            (
              on-append g.food g.snake1.positions g.snake2.positions v.first.clear b.clear,
              IsDistinct-append g.snake1.positions g.snake2.positions v.first.distinct b.distinct
                  (v.apart n),
            ),
      ),
)

length-follow : (p : Position) (ps : List Position) → length (follow p ps) ≡ length ps
unfolding follow
length-follow p [] = refl
length-follow p (q ∷ ps) = ap suc (length-follow q ps)

length-grown : (ps : List Position) → length (grown ps) ≤ length ps + 1
length-grown [] = omega arith
length-grown (p ∷ []) = omega arith
length-grown (p ∷ q ∷ ps) = omega (arith, length-grown (q ∷ ps))

length-advanced : (d : Position) (ps : List Position) → length (advanced d ps) ≡ length ps
length-advanced d [] = refl
length-advanced d (p ∷ ps) = length-follow (moved d p) (p ∷ ps)

length-grow_snake :
    (s : Snake) → length (grow_snake (update_snake s)).positions ≤ length s.positions + 1
unfolding grow_snake update_snake
length-grow_snake s = omega (
  arith,
  length-grown (advanced s.direction s.positions),
  length-advanced s.direction s.positions,
)

-- From the start of a game, whatever the keys and the numbers drawn, as long as nobody has collided: a
-- snake that moves in the next round and grows has at most 576 positions, as many as its array.
pub play-grow_snake :
    (ticks later : List ℕ) (rounds : List (Option ℕ × List ℕ)) (g g1 g2 : Game)
    → (g.num_of_players ≡ 1) ⊎ (g.num_of_players ≡ 2)
    → await_start ticks g ≡ some (g1, later)
    → play rounds g1 ≡ some (g2, 0)
    → (length (grow_snake (update_snake g2.snake1)).positions ≤ grid_size * grid_size)
      × (g2.num_of_players ≡ 2
          → length (grow_snake (update_snake g2.snake2)).positions ≤ grid_size * grid_size)
play-grow_snake ticks later rounds g g1 g2 n a p =
    let fit = snakes_fit g2 (play-await_start ticks later rounds g g1 g2 n a p) in
    (
      omega (arith, fit.0, length-grow_snake g2.snake1),
      λ m. omega (arith, fit.1 m, length-grow_snake g2.snake2),
    )
