-- ===== src/Shell/Snake/Play.antt =====
-- snake.c: what the rounds of a game keep.
use g21_tp2_so_1c.Base.{
  ℕ, false, ◌==◌, Option, List, [], ◌∷◌, ◌≡◌, refl, arith, inl, inr, subst, ◌∙◌, by_option,
  by_cases,
}
use g21_tp2_so_1c.Shell.Snake.{
  Game, one, two, on, check_snake, check_snakes, pressed, play_round, play, check_collisions,
}
use g21_tp2_so_1c.Shell.Snake.Bodies.{Living, Advance}
use g21_tp2_so_1c.Shell.Snake.Round.{All, Stepped, check_snake-Stepped, All-map}
use g21_tp2_so_1c.Shell.Snake.Collide.{
  IsSound, pressed-IsSound, Living-Advance, check_collisions-Clear, Apart-Advance,
}

-- What one moving snake, or both, leave when nobody collides.
Sound-one :
    (g g1 : Game)
    → IsSound g
    → g.num_of_players ≡ 1
    → Stepped one g g1
    → check_collisions g1 ≡ 0
    → IsSound g1
Sound-one g g1 v n s e =
    let k = check_collisions-Clear g1 e in
    record {
      players = inl (s.num ∙ n);
      inside = s.inside;
      first =
          Living-Advance g.food g1.food g.snake1.positions g1.snake1.positions s.advance s.clear
            k.first;
      second = λ m. absurd (omega (arith, s.num));
      apart = λ m. absurd (omega (arith, s.num));
    }

Sound-both :
    (g g1 g2 : Game)
    → IsSound g
    → g.num_of_players ≡ 2
    → Stepped one g g1
    → Stepped two g1 g2
    → check_collisions g2 ≡ 0
    → IsSound g2
Sound-both g g1 g2 v n s t e =
    let k = check_collisions-Clear g2 e in
    let a : Advance g.food g.snake1.positions g2.snake1.positions = rw t.still s.advance in
    let b : Advance g1.food g.snake2.positions g2.snake2.positions = rw (← s.still) t.advance in
    let c : on g1.food g2.snake1.positions ≡ false = rw t.still s.clear in
    record {
      players = inr (t.num ∙ s.num ∙ n);
      inside = t.inside;
      first =
          Living-Advance g.food g2.food g.snake1.positions g2.snake1.positions a
            (rw t.still (t.clear_other (omega (arith, s.num)) s.clear)) k.first;
      second = λ m.
          Living-Advance g1.food g2.food g.snake2.positions g2.snake2.positions b t.clear
            (k.second m);
      apart = λ m.
          Apart-Advance g.food g1.food g.snake1.positions g.snake2.positions g2.snake1.positions
            g2.snake2.positions a b (v.second n).clear c (k.first_apart m) (k.second_apart m)
            (v.apart n);
    }

-- The second snake is as it was when its turn comes, and off the food.
Living-second :
    (g g1 : Game)
    → IsSound g
    → g.num_of_players ≡ 2
    → Stepped one g g1
    → Living g1.food g1.snake2.positions
Living-second g g1 v n s =
    let l = v.second n in
    rw s.still (record {
      alive = l.alive;
      inside = l.inside;
      distinct = l.distinct;
      clear = s.clear_other (omega (arith, n)) l.clear;
    })

abbrev Kept : Game × List ℕ → Type 0
Kept r = check_collisions r.0 ≡ 0 → IsSound r.0

check_snakes-Kept : (ticks : List ℕ) (g : Game) → IsSound g → All Kept (check_snakes ticks g)
unfolding check_snakes
check_snakes-Kept ticks g v =
    by_option (All Kept) (check_snake one ticks g) _ _ (λ e. tt)
      (λ (r : Game × List ℕ) e.
        let s =
          subst (All (λ (q : Game × List ℕ). Stepped one g q.0)) e
            (check_snake-Stepped one ticks g (inl refl) v.inside v.first) in
        by_cases (All Kept) (r.0.num_of_players == 2) _ _
          (λ t.
            let n : g.num_of_players ≡ 2 = ground (arith, s.num) in
            All-map (λ (q : Game × List ℕ). Stepped two r.0 q.0) Kept (check_snake two r.1 r.0)
              (λ q u. λ z. Sound-both g r.0 q.0 v n s u z)
              (check_snake-Stepped two r.1 r.0 (inr (omega (arith, n, s.num))) s.inside
                (Living-second g r.0 v n s)))
          (λ f. λ z. Sound-one g r.0 v (ground (arith, s.num, v.players)) s z))

play_round-IsSound :
    (key : Option ℕ) (ticks : List ℕ) (g : Game)
    → IsSound g
    → All (λ r. r.1 ≡ 0 → IsSound r.0) (play_round key ticks g)
unfolding play_round
play_round-IsSound key ticks g v =
    by_option (All (λ (r : Game × ℕ). r.1 ≡ 0 → IsSound r.0)) (check_snakes ticks (pressed key g)) _
      _ (λ e. tt)
      (λ (r : Game × List ℕ) e.
        subst (All Kept) e (check_snakes-Kept ticks (pressed key g) (pressed-IsSound key g v)))

pub play-IsSound :
    (rounds : List (Option ℕ × List ℕ)) (g : Game)
    → IsSound g
    → All (λ r. r.1 ≡ 0 → IsSound r.0) (play rounds g)
unfolding play
play-IsSound [] g v = λ e. v
play-IsSound ((key, ticks) ∷ rounds) g v =
    by_option (All (λ (r : Game × ℕ). r.1 ≡ 0 → IsSound r.0)) (play_round key ticks g) _ _ (λ e. tt)
      (λ (r : Game × ℕ) e.
        by_cases (All (λ (r : Game × ℕ). r.1 ≡ 0 → IsSound r.0)) (r.1 == 0) _ _
          (λ t. play-IsSound rounds r.0 (
            subst (All (λ (q : Game × ℕ). q.1 ≡ 0 → IsSound q.0)) e
              (play_round-IsSound key ticks g v) (ground arith)))
          (λ f. λ z. ground arith))
