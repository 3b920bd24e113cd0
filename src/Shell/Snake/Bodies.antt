-- ===== src/Shell/Snake/Bodies.antt =====
-- snake.c: the cells of a snake as it moves and grows.
use g21_tp2_so_1c.Base.{
  suc, ◌<◌, true, false, List, [], ◌∷◌, ◌≡◌, refl, arith, length, ap, subst, sym,
}
use g21_tp2_so_1c.Shell.Snake.{
  Position, same, on, follow, grown, grid_size, moved, advanced, head_of, rest_of,
}

abbrev pub InGrid : Position → Type 0
InGrid p = (p.x < grid_size) × (p.y < grid_size)

abbrev pub AllInGrid : List Position → Type 0
AllInGrid [] = Unit {0}
AllInGrid (p ∷ ps) = InGrid p × AllInGrid ps

abbrev pub IsDistinct : List Position → Type 0
IsDistinct [] = Unit {0}
IsDistinct (p ∷ ps) = (on p ps ≡ false) × IsDistinct ps

-- A list with one of the entries of another, the last, left out.
on-follow :
    (p q : Position) (ps : List Position) → on p (q ∷ ps) ≡ false → on p (follow q ps) ≡ false
unfolding on follow
on-follow p q [] h = refl
on-follow p q (r ∷ ps) h = ground (arith, on-follow p r ps)

AllInGrid-follow :
    (q : Position) (ps : List Position) → InGrid q → AllInGrid ps → AllInGrid (follow q ps)
unfolding follow
AllInGrid-follow q [] h a = tt
AllInGrid-follow q (p ∷ ps) h a = (h, AllInGrid-follow p ps a.0 a.1)

IsDistinct-follow :
    (q : Position) (ps : List Position) → IsDistinct (q ∷ ps) → IsDistinct (follow q ps)
unfolding follow
IsDistinct-follow q [] d = tt
IsDistinct-follow q (p ∷ ps) d = (on-follow q p ps d.0, IsDistinct-follow p ps d.1)

length-follow : (q : Position) (ps : List Position) → length (follow q ps) ≡ length ps
unfolding follow
length-follow q [] = refl
length-follow q (p ∷ ps) = ap suc (length-follow p ps)

-- What grows at the tail is dropped by the move that follows.
follow-grown : (q p : Position) (ps : List Position) → follow q (grown (p ∷ ps)) ≡ q ∷ p ∷ ps
unfolding follow
follow-grown q p [] = refl
follow-grown q p (r ∷ ps) = ap (λ (l : List Position). q ∷ l) (follow-grown p r ps)

advanced-grown :
    (d p : Position) (ps : List Position) → advanced d (grown (p ∷ ps)) ≡ moved d p ∷ p ∷ ps
unfolding follow
advanced-grown d p [] = refl
advanced-grown d p (r ∷ ps) = follow-grown (moved d p) p (r ∷ ps)

-- A snake of the game: at least one cell, all of them in the grid and different, and the food on none.
pub record Living (food : Position) (ps : List Position) : Type 0 where
  pub alive : 0 < length ps
  pub inside : AllInGrid ps
  pub distinct : IsDistinct ps
  pub clear : on food ps ≡ false

-- The same for all but the head, after a move.
pub record Advance (food : Position) (ps ps' : List Position) : Type 0 where
  pub alive : 0 < length ps'
  pub inside : AllInGrid (rest_of ps')
  pub distinct : IsDistinct (rest_of ps')
  pub within : (p : Position) → on p (food ∷ ps) ≡ false → on p (rest_of ps') ≡ false

on-tail : (p q : Position) (ps : List Position) → on p (q ∷ ps) ≡ false → on p ps ≡ false
unfolding on
on-tail p q ps h = ground arith

pub same-true : (p q : Position) → same p q ≡ true → p ≡ q
same-true p q e = ground arith

on_both :
    (q m food : Position) (ps : List Position) (p : Position)
    → m ≡ food
    → on q (food ∷ p ∷ ps) ≡ false
    → on q (m ∷ follow p ps) ≡ false
unfolding on
on_both q m food ps p at h = ground (arith, at, on-follow q p ps)

pub advanced-Advance :
    (food d : Position) (ps : List Position) → Living food ps → Advance food ps (advanced d ps)
unfolding follow
advanced-Advance food d [] l = absurd (omega (arith, l.alive))
advanced-Advance food d (p ∷ ps) l = record {
  alive = omega arith;
  inside = AllInGrid-follow p ps l.inside.0 l.inside.1;
  distinct = IsDistinct-follow p ps l.distinct;
  within = λ q h. on-follow q p ps (on-tail q food (p ∷ ps) h);
}

pub advanced_twice-Advance :
    (food d : Position) (ps : List Position)
    → InGrid food
    → same (head_of (advanced d ps)) food ≡ true
    → Living food ps
    → Advance food ps (advanced d (grown (advanced d ps)))
unfolding follow
advanced_twice-Advance food d [] i e l = absurd (omega (arith, l.alive))
advanced_twice-Advance food d (p ∷ ps) i e l =
    let m : Position = moved d p in
    let at : m ≡ food = same-true m food e in
    subst (Advance food (p ∷ ps)) (sym (advanced-grown d m (follow p ps))) (record {
      alive = omega arith;
      inside = (subst InGrid (sym at) i, AllInGrid-follow p ps l.inside.0 l.inside.1);
      distinct = (
        subst (λ (q : Position). on q (follow p ps) ≡ false) (sym at) (on-follow food p ps l.clear),
        IsDistinct-follow p ps l.distinct,
      );
      within = λ q h. on_both q m food ps p at h;
    })

pub advanced_clear :
    (food d : Position) (ps : List Position)
    → same (head_of (advanced d ps)) food ≡ false
    → on food ps ≡ false
    → on food (advanced d ps) ≡ false
unfolding on follow
advanced_clear food d [] e c = refl
advanced_clear food d (p ∷ ps) e c = ground (arith, on-follow food p ps)
