-- ===== src/Shell/SynchroTests.antt =====
-- testSynchro.c: runs of the four processes, with the semaphore and without.
use g21_tp2_so_1c.Base.{
  ℕ, zero, suc, ◌+◌, ◌<◌, ◌≤◌, ◌*◌, ◌≡◌, Bool, true, false, refl, arith, Option, none, some, List,
  [], ◌∷◌, ◌++◌,
}
use g21_tp2_so_1c.Shell.Synchro.{
  Shared, ended, workers, my_process_inc, advance, test_sync, Reach, start, next,
}
use g21_tp2_so_1c.Shell.Synchro.Stops.{my_process_inc-none}
use g21_tp2_so_1c.Shell.Synchro.Ends.{my_process_inc-all_left, all_left}

-- The processes of a interleaving, one statement each; one that waits loses its turn.
abbrev move : Bool → ℕ → ℕ → Shared → Shared
move use_sem n k s = elim (my_process_inc use_sem n k s) [ none ↦ s | some t ↦ t ]

abbrev run : Bool → ℕ → List ℕ → Shared → Shared
run use_sem n [] s = s
run use_sem n (k ∷ ks) s = run use_sem n ks (move use_sem n k s)

move-Reach :
    (b : Bool) (n k : ℕ) (s : Shared) → k < workers → Reach b n s → Reach b n (move b n k s)
move-Reach b n k s l r = go (my_process_inc b n k s) refl
  where
    go :
        (o : Option Shared)
        → my_process_inc b n k s ≡ o
        → Reach b n (elim o [ none ↦ s | some t ↦ t ])
    go none e = r
    go (some t) e = next k r l e

abbrev AreWorkers : List ℕ → Type 0
AreWorkers [] = Unit {0}
AreWorkers (k ∷ ks) = (k < workers) × AreWorkers ks

run-Reach :
    (b : Bool) (n : ℕ) (ks : List ℕ) (s : Shared)
    → AreWorkers ks
    → Reach b n s
    → Reach b n (run b n ks s)
run-Reach b n [] s h r = r
run-Reach b n (k ∷ ks) s h r = run-Reach b n ks (move b n k s) h.1 (move-Reach b n k s h.0 r)

-- Two turns of each in a row, and some that find the semaphore taken.
abbrev turns : List ℕ
turns = 0 ∷ 1 ∷ 0 ∷ 1 ∷ 0 ∷ 1 ∷ 0 ∷ 1 ∷ 0 ∷ 1 ∷ []

abbrev others : List ℕ
others = 2 ∷ 3 ∷ 2 ∷ 3 ∷ 2 ∷ 3 ∷ 2 ∷ 3 ∷ 2 ∷ 3 ∷ []

abbrev interleaving : List ℕ
interleaving = turns ++ turns ++ others ++ others ++ others ++ turns ++ others ++ turns

-- Without the semaphore, 0 and 1 read before either writes: what one of them adds is lost.
lost :
    (run false 1
      (0 ∷ 1 ∷ 0 ∷ 1 ∷ 0 ∷ 1 ∷ 0 ∷ 1 ∷ 2 ∷ 2 ∷ 2 ∷ 2 ∷ 3 ∷ 3 ∷ 3 ∷ 3 ∷ turns ++ others)
      test_sync).global
    ≡ 1
unfolding my_process_inc advance
lost = refl

kept : (run true 1 interleaving test_sync).global ≡ 0
unfolding my_process_inc advance
kept = refl

all_stop :
    (k : ℕ) → k < workers → my_process_inc true 1 k (run true 1 interleaving test_sync) ≡ none
unfolding my_process_inc advance
all_stop zero l = refl
all_stop (suc zero) l = refl
all_stop (suc (suc zero)) l = refl
all_stop (suc (suc (suc zero))) l = refl
all_stop (suc (suc (suc (suc k)))) l = absurd (omega arith)

in_range : AreWorkers interleaving
in_range = ground arith

my_process_inc-none_example :
    ((k : ℕ) → k < workers → ((run true 1 interleaving test_sync).worker k).place ≡ ended)
    × ((run true 1 interleaving test_sync).global ≡ 0)
my_process_inc-none_example =
    my_process_inc-none 1 (run-Reach true 1 interleaving test_sync in_range start) all_stop

opens :
    my_process_inc true 1 2 (run true 1 turns test_sync)
    ≡ some (run true 1 (turns ++ 2 ∷ []) test_sync)
unfolding my_process_inc advance
opens = refl

my_process_inc-all_left_example :
    (all_left 1 (run true 1 (turns ++ 2 ∷ []) test_sync) + 1
      ≡ all_left 1 (run true 1 turns test_sync))
    × (all_left 1 (run true 1 turns test_sync) ≤ 20 * 1 + 12)
my_process_inc-all_left_example =
    my_process_inc-all_left 1 2 (run-Reach true 1 turns test_sync (ground arith) start)
      (omega arith) opens
