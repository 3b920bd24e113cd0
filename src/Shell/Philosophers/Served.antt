-- ===== src/Shell/Philosophers/Served.antt =====
-- phylo.c: the philosophers of a fixed table, however their statements interleave.
use g21_tp2_so_1c.Base.{
  ℕ, ◌<◌, ◌≡◌, true, false, inl, inr, refl, arith, ltb, Option, none, some, by_bool, subst,
}
use g21_tp2_so_1c.Shell.Philosophers.{
  Hall, check_and_print_state_change, test, goto, put_state, sem_post, Mood, thinking, hungry,
  eating, is_hungry, Pc, think, take_wait, take_hungry, take_test, take_post, take_sleep, eat,
  put_wait, put_think, put_left, put_right, put_post, update, left, right, philosopher, advance,
  Reach,
}
use g21_tp2_so_1c.Shell.Philosophers.Orderly.{critical}
use g21_tp2_so_1c.Shell.Philosophers.Moves.{
  Fine, check_and_print-Shows, seated, is_free, update_self,
}
use g21_tp2_so_1c.Shell.Philosophers.Safety.{Kept, philosopher-Kept, philosophers-Fine}
use g21_tp2_so_1c.Shell.Philosophers.Fed.{
  Fed, Fed-quiet, Fed-think, Fed-Tested, Tested, waits, blocked, owes,
}

abbrev FedHall : Hall → Type 0
FedHall h = Fed h.philosopher_count h.state h.pc

not_free :
    (h : Hall) (j : ℕ)
    → is_free j h ≡ false
    → is_hungry (h.state j) ≡ true
    → blocked h.philosopher_count h.state j ≡ true
not_free h j e q = ground arith

Tested-seat :
    (c : ℕ) (state : ℕ → Mood) (pc : ℕ → Pc) (j : ℕ) → Tested c state pc j (update state j eating)
unfolding Tested
Tested-seat c state pc j = (λ i e. ground arith, λ i n. ground arith, λ e. ground arith)

test-Fed :
    (h : Hall) (k j : ℕ) (p : Pc)
    → k < h.philosopher_count
    → ((i : ℕ)
        → ¬ (i ≡ j)
        → owes (h.pc k) h.philosopher_count k i ≡ true
        → owes p h.philosopher_count k i ≡ true)
    → ((m : Mood) → ¬ (k ≡ j) → waits p m ≡ false)
    → FedHall h
    → FedHall (goto k p (test j h))
unfolding test
test-Fed h k j p l o w f =
    by_bool (λ (g : Hall). FedHall (goto k p g)) (is_free j h) (seated j h) h (λ e. seat)
      (λ e.
        Fed-Tested h.philosopher_count h.state h.pc f k j p h.state l
          (unfold Tested in (λ i q. q, λ i n. refl, not_free h j e)) o w)
  where
    seat : FedHall (goto k p (seated j h))
    seat =
        let s = check_and_print-Shows (record h { state = update h.state j eating }) in
        unfold sem_post in
        rw (s.count, s.state, s.pc)
          (Fed-Tested h.philosopher_count h.state h.pc f k j p (update h.state j eating) l
            (Tested-seat h.philosopher_count h.state h.pc j) o w)

-- A new state that is printed.
put-Fed :
    (h : Hall) (k : ℕ) (p : Pc) (m : Mood)
    → Fed h.philosopher_count (update h.state k m) (update h.pc k p)
    → FedHall (goto k p (check_and_print_state_change (put_state k m h)))
put-Fed h k p m f = let s = check_and_print-Shows (put_state k m h) in rw (s.count, s.state, s.pc) f

quiet :
    (h : Hall) (k : ℕ) (p : Pc)
    → k < h.philosopher_count
    → ((i : ℕ) → owes (h.pc k) h.philosopher_count k i ≡ false)
    → (waits p (h.state k) ≡ true → waits (h.pc k) (h.state k) ≡ true)
    → FedHall h
    → Fed h.philosopher_count h.state (update h.pc k p)
quiet h k p l o w f =
    subst (λ (s : ℕ → Mood). Fed h.philosopher_count s (update h.pc k p)) (update_self h.state k)
      (Fed-quiet h.philosopher_count h.state h.pc f k p (h.state k) l o (λ e. e) w)

abbrev KeptFed : Option Hall → Type 0
KeptFed none = Unit {0}
KeptFed (some h) = FedHall h

advance-KeptFed :
    (p : Pc) (i : ℕ) (h : Hall)
    → i < h.philosopher_count
    → h.pc i ≡ p
    → Fine h
    → FedHall h
    → KeptFed (advance p i h)
unfolding advance
advance-KeptFed think i h l at v f =
    Fed-quiet h.philosopher_count h.state h.pc f i take_wait thinking l (λ j. rw at refl)
      (λ e. ground (arith, v.0.agrees i l, at)) (λ q. cc)
advance-KeptFed take_wait i h l at v f =
    by_bool KeptFed (ltb 0 h.mutex) _ none
      (λ e. quiet h i take_hungry l (λ j. rw at refl) (λ q. cc) f) (λ e. tt)
advance-KeptFed take_hungry i h l at v f = put-Fed h i take_test hungry (
    Fed-quiet h.philosopher_count h.state h.pc f i take_test hungry l (λ j. rw at refl)
      (λ e. ground (arith, v.0.agrees i l, at)) (λ q. cc))
advance-KeptFed take_test i h l at v f =
    test-Fed h i i take_post l (λ j n q. ground (arith, at)) (λ m n. absurd (n refl)) f
advance-KeptFed take_post i h l at v f =
    quiet h i take_sleep l (λ j. rw at refl) (λ q. ground (arith, at)) f
advance-KeptFed take_sleep i h l at v f =
    by_bool KeptFed (ltb 0 (h.sems i)) _ none (λ e. quiet h i eat l (λ j. rw at refl) (λ q. cc) f)
      (λ e. tt)
advance-KeptFed eat i h l at v f =
    Fed-quiet h.philosopher_count h.state h.pc f i put_wait eating l (λ j. rw at refl) (λ e. refl)
      (λ q. cc)
advance-KeptFed put_wait i h l at v f =
    by_bool KeptFed (ltb 0 h.mutex) _ none
      (λ e. quiet h i put_think l (λ j. rw at refl) (λ q. cc) f) (λ e. tt)
advance-KeptFed put_think i h l at v f =
    put-Fed h i put_left thinking
      (Fed-think h.philosopher_count h.state h.pc f i l (λ j. rw at refl))
advance-KeptFed put_left i h l at v f =
    test-Fed h i (left h.philosopher_count i) put_right l (λ j n q. ground (arith, at))
      (λ m n. refl) f
advance-KeptFed put_right i h l at v f =
    test-Fed h i (right h.philosopher_count i) put_post l (λ j n q. ground (arith, at))
      (λ m n. refl) f
advance-KeptFed put_post i h l at v f = quiet h i think l (λ j. rw at refl) (λ q. cc) f

-- Steps of the philosophers alone, from the state `h` on, and the check of a command that came before.
pub data Rounds (h : Hall) : Hall → Type 0 where
  set : Rounds h h
  round :
      {g g' : Hall} (i : ℕ)
      → Rounds h g
      → i < g.philosopher_count
      → philosopher i g ≡ some g'
      → Rounds h g'
  looked : {g : Hall} (seen : ℕ → Mood) → Rounds h g → Rounds h (record g { last_state = seen })

-- Nobody waits for its forks, as after the philosophers have sat down.
abbrev pub Rested : Hall → Type 0
Rested h = (i : ℕ) → i < h.philosopher_count → waits (h.pc i) (h.state i) ≡ false

philosopher-KeptFed :
    (i : ℕ) (h : Hall) → i < h.philosopher_count → Fine h → FedHall h → KeptFed (philosopher i h)
unfolding philosopher
philosopher-KeptFed i h l v f = advance-KeptFed (h.pc i) i h l refl v f

Rounds-Fed : {h g : Hall} → Fine h → Rested h → Rounds h g → Fine g × FedHall g
Rounds-Fed v r set = (v, λ i l w. absurd (ground (arith, r i l)))
Rounds-Fed v r (looked seen rs) = Rounds-Fed v r rs
Rounds-Fed v r (round {g} i rs l e) =
    let (fine, fed) = Rounds-Fed v r rs in
    (
      subst Kept e (philosopher-Kept i g l fine),
      subst KeptFed e (philosopher-KeptFed i g l fine fed),
    )

owes-critical : (p : Pc) (c k i : ℕ) → owes p c k i ≡ true → critical p ≡ true
owes-critical put_left c k i e = refl
owes-critical put_right c k i e = refl
owes-critical p c k i e = ground arith

-- Nobody is forgotten: from a state where nobody waits, reached without a removal that makes neighbours
-- of two that eat, and while the table stays as it is: whenever the mutex is free, a hungry philosopher
-- that sleeps, or is about to, has a neighbour that eats.
pub hungry-blocked :
    {h g : Hall}
    → Reach h
    → Rested h
    → Rounds h g
    → g.mutex ≡ 1
    → (i : ℕ) → i < g.philosopher_count
    → waits (g.pc i) (g.state i) ≡ true
    → blocked g.philosopher_count g.state i ≡ true
hungry-blocked {g = g} reach r rs free i l w =
    let (fine, fed) = Rounds-Fed (philosophers-Fine reach) r rs in
    elim (fed i l w) [
      | inl b ↦ b
      | inr (k, m, o) ↦ absurd (
          omega (arith, free, fine.0.locked k m (owes-critical (g.pc k) g.philosopher_count k i o)))
    ]
