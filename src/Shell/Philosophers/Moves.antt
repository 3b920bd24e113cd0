-- ===== src/Shell/Philosophers/Moves.antt =====
-- phylo.c: what one statement of a philosopher, an arrival or a departure keeps.
use g21_tp2_so_1c.Base.{
  ℕ, zero, suc, ◌+◌, ◌<◌, ◌≤◌, ◌≡◌, ◌==◌, Bool, true, false, not, ◌&&◌, ◌||◌, inl, inr, refl, arith,
  if◌then◌else◌, ltb, leb, List, [], ◌∷◌, fun_ext, by_bool, subst, sym, ==-false,
}
use g21_tp2_so_1c.Shell.Philosophers.{
  Hall, Line, status, invalid_state, added, removed, check_and_print_state_change,
  check_adjacent_eating, print_philosophers_status, check_first, visual_changed, has_e, test, Mood,
  thinking, hungry, eating, is_eating, is_hungry, Pc, take_test, take_post, update, left, right,
  sem_post, goto, put_state,
}
use g21_tp2_so_1c.Shell.Philosophers.Orderly.{
  Orderly, Orderly-move, Orderly-serve, Apart, Agrees, critical, May, left-lt, right-left, Trade,
}

-- The warning was never printed.
abbrev pub Quiet : List Line → Type 0
Quiet [] = Unit {0}
Quiet (invalid_state ∷ ls) = ⊥
Quiet (status fs ∷ ls) = Quiet ls
Quiet (added i p ∷ ls) = Quiet ls
Quiet (removed i ∷ ls) = Quiet ls

abbrev pub Fine : Hall → Type 0
Fine h = Orderly h.philosopher_count h.state h.pc h.sems h.mutex × Quiet h.printed

-- The neighbour on the left eats beside a philosopher that eats only where the one on the right does.
Apart-left :
    (c : ℕ) (state : ℕ → Mood)
    → Apart c state
    → (i : ℕ) → i < c
    → 1 < c
    → is_eating (state i) ≡ true
    → is_eating (state (left c i)) ≡ false
Apart-left c state ap i p two e =
    ground (arith, ap (left c i) (left-lt c i p) two, right-left c i p)

check_first-Quiet :
    (c n : ℕ) (state : ℕ → Mood) (ls : List Line)
    → Apart c state
    → 1 < c
    → n ≤ c
    → Quiet ls
    → Quiet (check_first c n state ls)
unfolding check_first
check_first-Quiet c zero state ls ap two le q = q
check_first-Quiet c (suc n) state ls ap two le q =
    let rest = check_first-Quiet c n state ls ap two (omega arith) q in
    ground (arith, ap n (omega arith) two, Apart-left c state ap n (omega arith) two)

-- What the print leaves alone.
pub record Shows (h h' : Hall) : Type 0 where
  pub count : h'.philosopher_count ≡ h.philosopher_count
  pub state : h'.state ≡ h.state
  pub pc : h'.pc ≡ h.pc
  pub sems : h'.sems ≡ h.sems
  pub mutex : h'.mutex ≡ h.mutex
  pub quiet : Apart h.philosopher_count h.state → Quiet h.printed → Quiet h'.printed

check_adjacent_eating-Shows : (h : Hall) → Shows h (check_adjacent_eating h)
unfolding check_adjacent_eating
check_adjacent_eating-Shows h =
    by_bool (Shows h) (leb h.philosopher_count 1) _ _
      (λ e. record {
        count = refl;
        state = refl;
        pc = refl;
        sems = refl;
        mutex = refl;
        quiet = λ a q. q;
      })
      (λ e. record {
        count = refl;
        state = refl;
        pc = refl;
        sems = refl;
        mutex = refl;
        quiet = λ a q.
            check_first-Quiet h.philosopher_count h.philosopher_count h.state h.printed a
              (ground arith) (omega arith) q;
      })

pub check_and_print-Shows : (h : Hall) → Shows h (check_and_print_state_change h)
unfolding check_and_print_state_change print_philosophers_status
check_and_print-Shows h =
    by_bool (Shows h)
      (visual_changed h.philosopher_count h.state h.last_state
        && (has_e h.philosopher_count h.state || h.philosopher_count == 1))
      _ _
      (λ e.
        let s = check_adjacent_eating-Shows (
          print_philosophers_status (record h {
            last_state = λ i. if ltb i h.philosopher_count then h.state i else h.last_state i;
          })) in
        record {
          count = s.count;
          state = s.state;
          pc = s.pc;
          sems = s.sems;
          mutex = s.mutex;
          quiet = s.quiet;
        })
      (λ e. record {
        count = refl;
        state = refl;
        pc = refl;
        sems = refl;
        mutex = refl;
        quiet = λ a q. q;
      })

Fine-Shows : (h h' : Hall) → Shows h h' → Fine h → Fine h'
Fine-Shows h h' s f = (rw (s.count, s.state, s.pc, s.sems, s.mutex) f.0, s.quiet f.0.apart f.1)

pub update_self {ℓ} : {A : Type ℓ} (f : ℕ → A) (i : ℕ) → update f i (f i) ≡ f
update_self f i = fun_ext (λ j. ground arith)

module _ {c : ℕ} {state : ℕ → Mood} {pc : ℕ → Pc} {sems : ℕ → ℕ} {mutex : ℕ} where
  -- A philosopher goes on and leaves its semaphore.
  pub Orderly-put :
      Orderly c state pc sems mutex
      → (i : ℕ) (p : Pc) (m : Mood) (mutex' : ℕ) → i < c
      → Agrees p m (sems i)
      → (is_eating m ≡ true → is_eating (state i) ≡ true)
      → Trade (critical (pc i)) (critical p) mutex mutex'
      → Orderly c (update state i m) (update pc i p) sems mutex'
  Orderly-put o i p m mutex' l a e t =
      subst (λ v. Orderly c (update state i m) (update pc i p) v mutex') (update_self sems i)
        (Orderly-move o i p m (sems i) mutex' l a (λ on. inl (e on)) t)

  -- A philosopher goes on and leaves its state as well.
  pub Orderly-go :
      Orderly c state pc sems mutex
      → (i : ℕ) (p : Pc) (v mutex' : ℕ) → i < c
      → Agrees p (state i) v
      → Trade (critical (pc i)) (critical p) mutex mutex'
      → Orderly c state (update pc i p) (update sems i v) mutex'
  Orderly-go o i p v mutex' l a t =
      subst (λ s. Orderly c s (update pc i p) (update sems i v) mutex') (update_self state i)
        (Orderly-move o i p (state i) v mutex' l a (λ on. inl on) t)

  pub Orderly-goto :
      Orderly c state pc sems mutex
      → (i : ℕ) (p : Pc) (mutex' : ℕ) → i < c
      → Agrees p (state i) (sems i)
      → Trade (critical (pc i)) (critical p) mutex mutex'
      → Orderly c state (update pc i p) sems mutex'
  Orderly-goto o i p mutex' l a t =
      subst (λ v. Orderly c state (update pc i p) v mutex') (update_self sems i)
        (Orderly-go o i p (sems i) mutex' l a t)

-- The place where `test` seats a philosopher, prints, and posts its semaphore.
abbrev pub seated : ℕ → Hall → Hall
seated j h =
    sem_post j (check_and_print_state_change (record h { state = update h.state j eating }))

abbrev pub is_free : ℕ → Hall → Bool
is_free j h =
    is_hungry (h.state j)
    && (not (is_eating (h.state (left h.philosopher_count j)))
        && not (is_eating (h.state (right h.philosopher_count j))))

pub May-is_free : (j : ℕ) (h : Hall) → is_free j h ≡ true → May h.philosopher_count h.state j
May-is_free j h e = inr (ground arith, ground arith)

pub hungry-is_free : (j : ℕ) (h : Hall) → is_free j h ≡ true → h.state j ≡ hungry
hungry-is_free j h e = ground arith

-- Waking a philosopher that sleeps, by the holder of the mutex, which then goes on.
pub Fine-test :
    (h : Hall) (i j : ℕ) (p : Pc)
    → i < h.philosopher_count
    → j < h.philosopher_count
    → critical (h.pc i) ≡ true
    → critical p ≡ true
    → h.state i ≡ thinking
    → Agrees p (h.state i) (h.sems i)
    → Fine h
    → Fine (goto i p (test j h))
unfolding test
Fine-test h i j p l r hold crit th a f =
    by_bool (λ (g : Hall). Fine (goto i p g)) (is_free j h) (seated j h) h
      (λ e. seat e (λ q. ground (arith, hungry-is_free j h e)))
      (λ e. (Orderly-goto f.0 i p h.mutex l a (rw (hold, crit) refl), f.1))
  where
    seat : is_free j h ≡ true → ¬ (i ≡ j) → Fine (goto i p (seated j h))
    seat e ne =
        let s = check_and_print-Shows (record h { state = update h.state j eating }) in
        let o = Orderly-serve f.0 i j l r hold ne (hungry-is_free j h e) (May-is_free j h e) in
        let o' =
          Orderly-goto o i p h.mutex l (rw (==-false j i (λ q. ne (sym q))) a)
            (rw (hold, crit) refl) in
        unfold sem_post in (rw (s.count, s.state, s.pc, s.sems, s.mutex) o', s.quiet o.apart f.1)

-- The philosopher's own test, and its next place.
pub Fine-own :
    (h : Hall) (i : ℕ)
    → i < h.philosopher_count
    → h.pc i ≡ take_test
    → Fine h
    → Fine (goto i take_post (test i h))
unfolding test
Fine-own h i l at f =
    by_bool (λ (g : Hall). Fine (goto i take_post g)) (is_free i h) (seated i h) h (λ e. seat e)
      (λ e. (
        Orderly-goto f.0 i take_post h.mutex l (ground (arith, f.0.agrees i l, at)) (rw at refl),
        f.1,
      ))
  where
    seat : is_free i h ≡ true → Fine (goto i take_post (seated i h))
    seat e =
        let s = check_and_print-Shows (record h { state = update h.state i eating }) in
        let o =
          Orderly-move f.0 i take_post eating (h.sems i + 1) h.mutex l
            (ground (arith, f.0.agrees i l, at)) (λ _. May-is_free i h e) (rw at refl) in
        unfold sem_post in (rw (s.count, s.state, s.pc, s.sems, s.mutex) o, s.quiet o.apart f.1)

-- A new state that is printed, under the mutex.
pub Fine-put :
    (h : Hall) (i : ℕ) (p : Pc) (m : Mood)
    → i < h.philosopher_count
    → critical (h.pc i) ≡ true
    → critical p ≡ true
    → is_eating m ≡ false
    → Agrees p m (h.sems i)
    → Fine h
    → Fine (goto i p (check_and_print_state_change (put_state i m h)))
Fine-put h i p m l hold crit off a f =
    let s = check_and_print-Shows (put_state i m h) in
    let o = Orderly-put f.0 i p m h.mutex l a (λ e. cc) (rw (hold, crit) refl) in
    (rw (s.count, s.state, s.pc, s.sems, s.mutex) o, s.quiet o.apart f.1)

mutex_on : (h : Hall) → ltb 0 h.mutex ≡ true → 0 < h.mutex
mutex_on h e = ground arith
