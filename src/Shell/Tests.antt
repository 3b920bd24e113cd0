-- ===== src/Shell/Tests.antt =====
-- The shell's programs: runs, and their theorems at concrete states.
use g21_tp2_so_1c.Base.{
  ℕ, zero, suc, ◌<◌, true, List, [], ◌∷◌, ◌≡◌, refl, arith, Option, none, some, dec_lt, ◌&&◌,
}
use g21_tp2_so_1c.Shell.Philosophers.{
  Hall, Reach, start, next, move, enter, look, max_philosophers, phylo_start, add_philosopher,
  philosopher, is_eating, remove_philosopher, removed, right,
}
use g21_tp2_so_1c.Shell.Philosophers.Orderly.{Apart}
use g21_tp2_so_1c.Shell.Philosophers.Moves.{Quiet}
use g21_tp2_so_1c.Shell.Philosophers.Safety.{philosophers-Apart}
use g21_tp2_so_1c.Shell.Philosophers.Fed.{waits, blocked}
use g21_tp2_so_1c.Shell.Philosophers.Served.{Rounds, set, round, Rested, hungry-blocked}

-- A state with the commands that lead to it.
record Visit : Type 0 where
  hall : Hall
  reach : Reach hall

seat : ℕ → Visit → Visit
seat zero v = v
seat (suc n) v = elim (dec_lt v.hall.philosopher_count max_philosophers) [
  | yes room ↦
      seat n (record { hall = _; reach = next (next v.reach (enter n room)) (look v.hall.state) })
  | no _ ↦ v
]

-- The philosophers of the list take a step each; one that has to wait does nothing.
turn : ℕ → Visit → Visit
turn i v = elim (dec_lt i v.hall.philosopher_count) [
  | yes l ↦ try l (philosopher i v.hall) refl
  | no _ ↦ v
]
  where
    try : i < v.hall.philosopher_count → (o : Option Hall) → philosopher i v.hall ≡ o → Visit
    try l none e = v
    try l (some h) e = record { hall = h; reach = next v.reach (move i l e) }

turns : List ℕ → Visit → Visit
turns [] v = v
turns (i ∷ is) v = turns is (turn i v)

-- Three sit down; the first takes its forks and eats, and the second gets as far as it can.
abbrev lunch : Visit
lunch =
    turns (0 ∷ 0 ∷ 0 ∷ 0 ∷ 0 ∷ 0 ∷ 0 ∷ 1 ∷ 1 ∷ 1 ∷ 1 ∷ 1 ∷ 1 ∷ [])
      (seat 3 (record { hall = phylo_start; reach = start }))

lunch_runs : is_eating (lunch.hall.state 0) ≡ true
unfolding turns turn seat philosopher add_philosopher dec_lt
lunch_runs = refl

philosophers-Apart_example :
    Apart lunch.hall.philosopher_count lunch.hall.state × Quiet lunch.hall.printed
philosophers-Apart_example = philosophers-Apart lunch.reach

-- Four sit down, the first and the third eat, and the fourth is removed: two that eat are neighbours
-- now. Nothing is printed, since nobody went to or from EATING.
abbrev crowded : Hall
crowded =
    (turns (0 ∷ 0 ∷ 0 ∷ 0 ∷ 0 ∷ 0 ∷ 0 ∷ 2 ∷ 2 ∷ 2 ∷ 2 ∷ 2 ∷ 2 ∷ 2 ∷ [])
      (seat 4 (record { hall = phylo_start; reach = start }))).hall

crowded_leaves :
    (is_eating ((remove_philosopher crowded).state 2)
        && is_eating ((remove_philosopher crowded).state (right 3 2))
      ≡ true)
    × ((remove_philosopher crowded).printed ≡ removed 3 ∷ crowded.printed)
unfolding turns turn seat philosopher add_philosopher remove_philosopher dec_lt
crowded_leaves = (refl, refl)

-- The same with the steps of a table that stays as it is.
record Course (h : Hall) : Type 0 where
  hall : Hall
  rounds : Rounds h hall

step_of : (h : Hall) → ℕ → Course h → Course h
step_of h i v = elim (dec_lt i v.hall.philosopher_count) [
  | yes l ↦ try l (philosopher i v.hall) refl
  | no _ ↦ v
]
  where
    try : i < v.hall.philosopher_count → (o : Option Hall) → philosopher i v.hall ≡ o → Course h
    try l none e = v
    try l (some g) e = record { hall = g; rounds = round i v.rounds l e }

steps_of : (h : Hall) → List ℕ → Course h → Course h
steps_of h [] v = v
steps_of h (i ∷ is) v = steps_of h is (step_of h i v)

abbrev seated : Visit
seated = seat 3 (record { hall = phylo_start; reach = start })

-- The first eats, and the second sleeps hungry beside it.
abbrev beside : Course seated.hall
beside =
    steps_of seated.hall (0 ∷ 0 ∷ 0 ∷ 0 ∷ 0 ∷ 0 ∷ 1 ∷ 1 ∷ 1 ∷ 1 ∷ 1 ∷ [])
      (record { hall = seated.hall; rounds = set })

seated-Rested : Rested seated.hall
unfolding seat add_philosopher dec_lt
seated-Rested zero l = refl
seated-Rested (suc zero) l = refl
seated-Rested (suc (suc zero)) l = refl
seated-Rested (suc (suc (suc i))) l = absurd (omega arith)

beside_waits :
    (beside.hall.mutex ≡ 1)
    × (1 < beside.hall.philosopher_count)
    × (waits (beside.hall.pc 1) (beside.hall.state 1) ≡ true)
unfolding steps_of step_of seat philosopher add_philosopher dec_lt
beside_waits = (refl, omega arith, refl)

hungry-blocked_example : blocked beside.hall.philosopher_count beside.hall.state 1 ≡ true
hungry-blocked_example =
    hungry-blocked seated.reach seated-Rested beside.rounds beside_waits.0 1 beside_waits.1
      beside_waits.2
