-- ===== src/Shell/Synchro/Stops.antt =====
-- testSynchro.c: with the semaphore, where the processes stop and what they have added up to then.
use g21_tp2_so_1c.Base.{
  ℕ, zero, suc, ◌+◌, ◌-◌, ◌%◌, ◌<◌, ◌≡◌, true, refl, arith, none, subst, ap, ◌∙◌,
}
use g21_tp2_so_1c.Shell.Synchro.{
  Place, opening, testing, waiting, loading, storing, posting, closing, ended, Worker, Shared,
  workers, int_mod, inc_of, advance, my_process_inc, Reach,
}
use g21_tp2_so_1c.Shell.Synchro.Totals.{total}
use g21_tp2_so_1c.Shell.Synchro.Holds.{holding, using_sem, times, written, held, paid, InRound}
use g21_tp2_so_1c.Shell.Synchro.Sum.{Sound, Reach-Sound, total_none, in_use}

-- A process that does not move waits for a value, or is at its end.
data Stopped (v : ℕ) : Place → Type 0 where
  stopped_waiting : v ≡ 0 → Stopped v waiting
  stopped_ended : Stopped v ended

advance-Stopped :
    (n : ℕ) (p : Place) (k : ℕ) (s : Shared) → advance true n p k s ≡ none → Stopped s.value p
unfolding advance
advance-Stopped n opening k s e = ground (arith, e)
advance-Stopped n testing k s e = ground (arith, e)
advance-Stopped n waiting k s e = stopped_waiting (ground (arith, e))
advance-Stopped n loading k s e = ground (arith, e)
advance-Stopped n (storing a) k s e = ground (arith, e)
advance-Stopped n posting k s e = ground (arith, e)
advance-Stopped n closing k s e = ground (arith, e)
advance-Stopped n ended k s e = stopped_ended

Stopped-holding : {v : ℕ} {p : Place} → Stopped v p → holding p ≡ 0
unfolding holding
Stopped-holding (stopped_waiting e) = refl
Stopped-holding stopped_ended = refl

-- Where nobody holds the semaphore its value lets a waiting process in.
Stopped-ended : (v : ℕ) (p : Place) → Stopped v p → (using_sem p ≡ 1 → v ≡ 1) → p ≡ ended
unfolding using_sem
Stopped-ended v waiting (stopped_waiting e) h = absurd (omega (arith, h refl))
Stopped-ended v ended stopped_ended h = refl
Stopped-ended v opening x h = elim x [ ]
Stopped-ended v testing x h = elim x [ ]
Stopped-ended v loading x h = elim x [ ]
Stopped-ended v (storing a) x h = elim x [ ]
Stopped-ended v posting x h = elim x [ ]
Stopped-ended v closing x h = elim x [ ]

times_pair : (n : ℕ) → (times n (int_mod - 1) + times n 1) % int_mod ≡ 0
unfolding times
times_pair zero = refl
times_pair (suc n) = omega (arith, times_pair n)

paid-ended :
    (n k : ℕ) (s : Shared)
    → k < workers
    → (s.worker k).place ≡ ended
    → Sound n s
    → paid (s.worker k) ≡ times n (inc_of k)
unfolding paid written
paid-ended n k s l e g =
    ap (λ p. times (written (s.worker k).i p) (s.worker k).inc) e
    ∙ ap (λ c. times (s.worker k).i c) (g.signed k l)
    ∙ ap (λ i. times i (inc_of k)) (subst (InRound n (s.worker k).i) e (g.rounds k l))

total_four :
    (w : Worker → ℕ) (ws : ℕ → Worker)
    → total w workers ws ≡ w (ws 0) + w (ws 1) + w (ws 2) + w (ws 3)
unfolding total
total_four w ws = omega arith

-- With the semaphore, in whatever order the statements of the processes run: the processes stop only
-- when all of them have returned, and the variable is 0 then.
pub my_process_inc-none :
    (n : ℕ) {s : Shared}
    → Reach true n s
    → ((k : ℕ) → k < workers → my_process_inc true n k s ≡ none)
    → ((k : ℕ) → k < workers → (s.worker k).place ≡ ended) × (s.global ≡ 0)
unfolding my_process_inc
my_process_inc-none n {s} r h =
    let g = Reach-Sound n r in
    let stop : (k : ℕ) → k < workers → Stopped s.value (s.worker k).place =
      λ k l. advance-Stopped n (s.worker k).place k s (h k l) in
    let none_held : total held workers s.worker ≡ 0 =
      total_none held workers s.worker (λ k l. Stopped-holding (stop k l)) in
    let all : (k : ℕ) → k < workers → (s.worker k).place ≡ ended = λ k l.
      Stopped-ended s.value (s.worker k).place (stop k l)
        (λ u. omega (arith, none_held, g.one_holder (in_use n k _ s l refl u g))) in
    let sum : (k : ℕ) → k < workers → paid (s.worker k) ≡ times n (inc_of k) =
      λ k l. paid-ended n k s l (all k l) g in
    (
      all,
      omega (
        arith,
        g.summed,
        total_four paid s.worker,
        sum 0 (omega arith),
        sum 1 (omega arith),
        sum 2 (omega arith),
        sum 3 (omega arith),
        times_pair n,
      ),
    )
