-- ===== src/Shell/Synchro/Ends.antt =====
-- testSynchro.c: with the semaphore, how many statements the processes run.
use g21_tp2_so_1c.Base.{
  ℕ, ◌+◌, ◌-◌, ◌*◌, ◌<◌, ◌≤◌, ◌≡◌, ◌==◌, true, refl, arith, ltb, Option, none, some, by_bool, subst,
  ap,
}
use g21_tp2_so_1c.Shell.Synchro.{
  Place, opening, testing, waiting, loading, storing, posting, closing, ended, Worker, Shared,
  workers, update, at_place, advance, my_process_inc, Reach, start, next,
}
use g21_tp2_so_1c.Shell.Synchro.Totals.{total, total-update}
use g21_tp2_so_1c.Shell.Synchro.Holds.{InRound}
use g21_tp2_so_1c.Shell.Synchro.Sum.{Reach-Sound}

-- The statements that a process with `i` rounds done of `n` has before it.
unfoldable pub statements_left : ℕ → ℕ → Place → ℕ
statements_left n i opening = 5 * (n - i) + 3
statements_left n i testing = 5 * (n - i) + 2
statements_left n i waiting = 5 * (n - i) + 1
statements_left n i loading = 5 * (n - i)
statements_left n i (storing a) = 5 * (n - i) - 1
statements_left n i posting = 5 * (n - i) - 2
statements_left n i closing = 1
statements_left n i ended = 0

abbrev pub left_of : ℕ → Worker → ℕ
left_of n w = statements_left n w.i w.place

abbrev Less : ℕ → Shared → Option Shared → Type 0
Less n s none = Unit {0}
Less n s (some t) = total (left_of n) workers t.worker + 1 ≡ total (left_of n) workers s.worker

less :
    (n k i : ℕ) (p q : Place) (s : Shared)
    → k < workers
    → (s.worker k).place ≡ p
    → statements_left n i q + 1 ≡ statements_left n (s.worker k).i p
    → total
          (left_of n)
          workers
          (update s.worker k (record { inc = (s.worker k).inc; i = i; place = q }))
        + 1
      ≡ total (left_of n) workers s.worker
less n k i p q s l at h =
    let w : Worker = record { inc = (s.worker k).inc; i = i; place = q } in
    omega (
      arith,
      total-update (left_of n) workers k s.worker w l,
      ap (statements_left n (s.worker k).i) at,
    )

advance-Less :
    (n : ℕ) (p : Place) (k : ℕ) (s : Shared)
    → k < workers
    → (s.worker k).place ≡ p
    → InRound n (s.worker k).i p
    → Less n s (advance true n p k s)
unfolding advance statements_left
advance-Less n opening k s l at r =
    by_bool (λ t. Less n s (some (at_place k testing t))) (s.users == 0) _ _
      (λ e. less n k (s.worker k).i opening testing s l at (omega arith))
      (λ e. less n k (s.worker k).i opening testing s l at (omega arith))
advance-Less n testing k s l at r =
    by_bool (λ q. Less n s (some (at_place k q s))) (ltb (s.worker k).i n) _ _
      (λ e. less n k (s.worker k).i testing waiting s l at (omega arith))
      (λ e. less n k (s.worker k).i testing closing s l at (ground (arith, e, r)))
advance-Less n waiting k s l at r =
    by_bool (Less n s) (ltb 0 s.value) _ none
      (λ e. less n k (s.worker k).i waiting loading s l at (omega arith)) (λ e. tt)
advance-Less n loading k s l at r =
    less n k (s.worker k).i loading (storing s.global) s l at (omega (arith, r))
advance-Less n (storing a) k s l at r =
    less n k (s.worker k).i (storing a) posting s l at (omega (arith, r))
advance-Less n posting k s l at r =
    less n k ((s.worker k).i + 1) posting testing s l at (omega (arith, r))
advance-Less n closing k s l at r = less n k (s.worker k).i closing ended s l at refl
advance-Less n ended k s l at r = tt

-- The statements that the processes have before them, of the sum over the four.
unfoldable pub all_left : ℕ → Shared → ℕ
all_left n s = total (left_of n) workers s.worker

step-all_left :
    (n : ℕ) {s t : Shared} (k : ℕ)
    → Reach true n s
    → k < workers
    → my_process_inc true n k s ≡ some t
    → all_left n t + 1 ≡ all_left n s
unfolding my_process_inc all_left
step-all_left n {s} {t} k r l e =
    subst (Less n s) e (advance-Less n (s.worker k).place k s l refl ((Reach-Sound n r).rounds k l))

all_left_le : (n : ℕ) {s : Shared} → Reach true n s → all_left n s ≤ 20 * n + 12
unfolding all_left total statements_left
all_left_le n start = omega arith
all_left_le n (next k r l e) = omega (arith, step-all_left n k r l e, all_left_le n r)

-- With the semaphore, each statement that a process runs takes one from the statements that all of them
-- have left, and these are never more than 20 for each round and 12: in no order do the processes go on
-- for ever.
pub my_process_inc-all_left :
    (n : ℕ) {s t : Shared} (k : ℕ)
    → Reach true n s
    → k < workers
    → my_process_inc true n k s ≡ some t
    → (all_left n t + 1 ≡ all_left n s) × (all_left n s ≤ 20 * n + 12)
my_process_inc-all_left n k r l e = (step-all_left n k r l e, all_left_le n r)
