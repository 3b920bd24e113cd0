-- ===== src/Shell/Philosophers/Safety.antt =====
-- phylo.c: the whole philosopher, arrivals, departures, and every state that they lead to.
use g21_tp2_so_1c.Base.{
  ℕ, ◌+◌, ◌-◌, ◌<◌, ◌≡◌, true, false, refl, arith, ltb, ℕ_discrete, dec_lt, Option, none, some,
  by_bool, subst,
}
use g21_tp2_so_1c.Shell.Philosophers.{
  Hall, Mood, thinking, hungry, eating, is_eating, Pc, think, take_wait, take_hungry, take_test,
  take_post, take_sleep, eat, put_wait, put_think, put_left, put_right, put_post, update, left,
  right, philosopher, advance,
}
use g21_tp2_so_1c.Shell.Philosophers.Orderly.{Orderly, Apart, left-lt, right-lt, right_eq}
use g21_tp2_so_1c.Shell.Philosophers.{move, enter, leave, look, Reach, start, next}
use g21_tp2_so_1c.Shell.Philosophers.Moves.{
  Fine, Quiet, Orderly-put, Orderly-go, Orderly-goto, Fine-own, Fine-put, Fine-test,
}

mutex_on : (h : Hall) → ltb 0 h.mutex ≡ true → 0 < h.mutex
mutex_on h e = ground arith

-- Fine after a step that runs: what `advance` returns is `some`.
abbrev pub Kept : Option Hall → Type 0
Kept none = Unit {0}
Kept (some h) = Fine h

advance-Kept :
    (p : Pc) (i : ℕ) (h : Hall)
    → i < h.philosopher_count
    → h.pc i ≡ p
    → Fine h
    → Kept (advance p i h)
unfolding advance
advance-Kept think i h l at f = (
  Orderly-put f.0 i take_wait thinking h.mutex l (ground (arith, f.0.agrees i l, at)) (λ e. cc)
      (rw at refl),
  f.1,
)
advance-Kept take_wait i h l at f =
    by_bool Kept (ltb 0 h.mutex) _ none
      (λ e. (
        Orderly-goto f.0 i take_hungry (h.mutex - 1) l (ground (arith, f.0.agrees i l, at))
            (rw at (omega (arith, f.0.small, mutex_on h e))),
        f.1,
      ))
      (λ e. tt)
advance-Kept take_hungry i h l at f =
    Fine-put h i take_test hungry l (rw at refl) refl refl (ground (arith, f.0.agrees i l, at)) f
advance-Kept take_test i h l at f = Fine-own h i l at f
advance-Kept take_post i h l at f = (
  Orderly-goto f.0 i take_sleep (h.mutex + 1) l (ground (arith, f.0.agrees i l, at))
      (rw at (omega (arith, f.0.locked i l (rw at refl)))),
  f.1,
)
advance-Kept take_sleep i h l at f =
    by_bool Kept (ltb 0 (h.sems i)) _ none
      (λ e. (
        Orderly-go f.0 i eat (h.sems i - 1) h.mutex l (ground (arith, f.0.agrees i l, at))
            (rw at refl),
        f.1,
      ))
      (λ e. tt)
advance-Kept eat i h l at f = (
  Orderly-put f.0 i put_wait eating h.mutex l (ground (arith, f.0.agrees i l, at))
      (λ e. ground (arith, f.0.agrees i l, at)) (rw at refl),
  f.1,
)
advance-Kept put_wait i h l at f =
    by_bool Kept (ltb 0 h.mutex) _ none
      (λ e. (
        Orderly-goto f.0 i put_think (h.mutex - 1) l (ground (arith, f.0.agrees i l, at))
            (rw at (omega (arith, f.0.small, mutex_on h e))),
        f.1,
      ))
      (λ e. tt)
advance-Kept put_think i h l at f =
    Fine-put h i put_left thinking l (rw at refl) refl refl (ground (arith, f.0.agrees i l, at)) f
advance-Kept put_left i h l at f =
    Fine-test h i (left h.philosopher_count i) put_right l (left-lt h.philosopher_count i l)
      (rw at refl) refl (ground (arith, f.0.agrees i l, at)) (ground (arith, f.0.agrees i l, at)) f
advance-Kept put_right i h l at f =
    Fine-test h i (right h.philosopher_count i) put_post l (right-lt h.philosopher_count i l)
      (rw at refl) refl (ground (arith, f.0.agrees i l, at)) (ground (arith, f.0.agrees i l, at)) f
advance-Kept put_post i h l at f = (
  Orderly-goto f.0 i think (h.mutex + 1) l (ground (arith, f.0.agrees i l, at))
      (rw at (omega (arith, f.0.locked i l (rw at refl)))),
  f.1,
)

pub philosopher-Kept :
    (i : ℕ) (h : Hall) → i < h.philosopher_count → Fine h → Kept (philosopher i h)
unfolding philosopher
philosopher-Kept i h l f = advance-Kept (h.pc i) i h l refl f

Kept-some : (o : Option Hall) (h : Hall) → Kept o → o ≡ some h → Fine h
Kept-some o h k e = subst Kept e k

is_eating-eating : (m : Mood) → is_eating m ≡ true → m ≡ eating
is_eating-eating m e = ground arith

not_eating : (m : Mood) → ¬ (m ≡ eating) → is_eating m ≡ false
not_eating m n = ground arith

Orderly-enter :
    (c : ℕ) (state : ℕ → Mood) (pc : ℕ → Pc) (sems : ℕ → ℕ) (mutex : ℕ)
    → Orderly c state pc sems mutex
    → Orderly (c + 1) (update state c thinking) (update pc c think) (update sems c 0) mutex
Orderly-enter c state pc sems mutex o = record {
  small = o.small;
  locked = λ i l e. ground (arith, o.locked i);
  one_holder = λ i j l r e q. ground (arith, o.one_holder i j);
  agrees = λ i l. ground (arith, o.agrees i);
  apart = λ i l two e. ground (arith, right_eq (c + 1) i l, right_eq c i, o.apart i);
}

Orderly-leave :
    (c : ℕ) (state : ℕ → Mood) (pc : ℕ → Pc) (sems : ℕ → ℕ) (mutex : ℕ)
    → ¬ ((3 < c) × ((state 0 ≡ eating) × (state (c - 2) ≡ eating)))
    → Orderly c state pc sems mutex
    → Orderly (c - 1) state pc sems mutex
Orderly-leave c state pc sems mutex ne o = record {
  small = o.small;
  locked = λ i l. o.locked i (omega arith);
  one_holder = λ i j l r. o.one_holder i j (omega arith) (omega arith);
  agrees = λ i l. o.agrees i (omega arith);
  apart = λ i l two e. elim (ℕ_discrete (i + 1) (c - 1)) [
    | yes last ↦
        let at : i ≡ c - 2 = omega (arith, last) in
        let on : state (c - 2) ≡ eating = rw (← at) (is_eating-eating (state i) e) in
        let out : is_eating (state 0) ≡ false = elim (dec_lt 3 c) [
          | yes many ↦ not_eating (state 0) (λ q. ne (many, (q, on)))
          | no few ↦ ground (arith, few, last, e, o.apart 0, right_eq c 0)
        ] in
        ground (arith, last, right_eq (c - 1) i l)
    | no more ↦ ground (arith, more, right_eq (c - 1) i l, right_eq c i, o.apart i)
  ];
}

pub philosophers-Fine : {h : Hall} → Reach h → Fine h
philosophers-Fine start = (
  record {
    small = omega arith;
    locked = λ i l e. omega arith;
    one_holder = λ i j l r e q. omega arith;
    agrees = λ i l. absurd (omega arith);
    apart = λ i l two e. absurd (omega arith);
  },
  tt,
)
philosophers-Fine (next {h} {h'} r (move i l e)) =
    Kept-some (philosopher i h) h' (philosopher-Kept i h l (philosophers-Fine r)) e
philosophers-Fine (next r (enter {h} pid room)) =
    let f = philosophers-Fine r in (Orderly-enter _ h.state h.pc h.sems h.mutex f.0, f.1)
philosophers-Fine (next r (leave {h} some_sit on ne)) =
    let f = philosophers-Fine r in (Orderly-leave _ h.state h.pc h.sems h.mutex ne f.0, f.1)
philosophers-Fine (next r (look seen)) = philosophers-Fine r

-- However the statements of the philosophers and the commands interleave, no two neighbours eat at
-- once, and the check that a philosopher makes with the mutex never prints its warning, as long as no
-- removal makes neighbours of two that eat, no command comes in the midst of a philosopher's statement,
-- and a new philosopher runs only once it is seated.
pub philosophers-Apart : {h : Hall} → Reach h → Apart h.philosopher_count h.state × Quiet h.printed
philosophers-Apart r = let f = philosophers-Fine r in (f.0.apart, f.1)
