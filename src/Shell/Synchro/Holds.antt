-- ===== src/Shell/Synchro/Holds.antt =====
-- testSynchro.c: what holds of the variable, of the semaphore and of the processes that use it.
use g21_tp2_so_1c.Base.{
  ℕ, zero, suc, ◌+◌, ◌%◌, ◌<◌, ◌≤◌, ◌≡◌, refl, arith, ℕ_discrete, if◌then◌else◌, subst, sym, ap,
  ◌∙◌, ==-false, ==_iff,
}
use native.Mathlib.Nat.{mod-add-mod}
use g21_tp2_so_1c.Shell.Synchro.{
  Place, opening, testing, waiting, loading, storing, posting, closing, ended, Worker, workers,
  int_mod, update, inc_of,
}
use g21_tp2_so_1c.Shell.Synchro.Totals.{total, total-update, total_two}

-- Between `semWait` and `semPost`.
unfoldable pub holding : Place → ℕ
holding opening = 0
holding testing = 0
holding waiting = 0
holding loading = 1
holding (storing a) = 1
holding posting = 1
holding closing = 0
holding ended = 0

-- Between `semOpen` and `semClose`.
unfoldable pub using_sem : Place → ℕ
using_sem opening = 0
using_sem testing = 1
using_sem waiting = 1
using_sem loading = 1
using_sem (storing a) = 1
using_sem posting = 1
using_sem closing = 1
using_sem ended = 0

unfoldable pub times : ℕ → ℕ → ℕ
times zero inc = 0
times (suc i) inc = times i inc + inc

-- The rounds of which the write is done.
unfoldable pub written : ℕ → Place → ℕ
written i opening = i
written i testing = i
written i waiting = i
written i loading = i
written i (storing a) = i
written i posting = suc i
written i closing = i
written i ended = i

abbrev pub held : Worker → ℕ
held w = holding w.place

abbrev pub opened : Worker → ℕ
opened w = using_sem w.place

-- What a process has added to the variable.
unfoldable pub paid : Worker → ℕ
paid w = times (written w.i w.place) w.inc

-- The rounds that are over, of `n`.
abbrev pub InRound : ℕ → ℕ → Place → Type 0
InRound n i opening = i ≤ n
InRound n i testing = i ≤ n
InRound n i waiting = i < n
InRound n i loading = i < n
InRound n i (storing a) = i < n
InRound n i posting = i < n
InRound n i closing = i ≡ n
InRound n i ended = i ≡ n

pub record Guarded (n global value users : ℕ) (ws : ℕ → Worker) : Type 0 where
  pub counted : total opened workers ws ≡ users
  pub one_holder : 0 < users → value + total held workers ws ≡ 1
  pub fresh : (j a : ℕ) → j < workers → (ws j).place ≡ storing a → a ≡ global
  pub summed : global ≡ total paid workers ws % int_mod
  pub signed : (j : ℕ) → j < workers → (ws j).inc ≡ inc_of j
  pub rounds : (j : ℕ) → j < workers → InRound n (ws j).i (ws j).place

-- The process that moved, or another.
update_split :
    (P : ℕ → Worker → Type 0) (ws : ℕ → Worker) (k : ℕ) (w : Worker)
    → P k w
    → ((j : ℕ) → j < workers → ¬ (j ≡ k) → P j (ws j))
    → (j : ℕ) → j < workers
    → P j (update ws k w j)
update_split P ws k w p h j l = elim (ℕ_discrete k j) [
  | yes e ↦
      subst (λ b. P j (if b then w else ws j)) (sym ((==_iff k j).1 e)) (subst (λ m. P m w) e p)
  | no ne ↦
      subst (λ b. P j (if b then w else ws j)) (sym (==-false k j ne)) (h j l (λ q. ne (sym q)))
]

-- A process that moves and neither reads nor writes the variable.
pub Guarded-put :
    (n global value users value' users' : ℕ) (ws : ℕ → Worker) (k : ℕ) (w : Worker)
    → k < workers
    → w.inc ≡ inc_of k
    → InRound n w.i w.place
    → paid w ≡ paid (ws k)
    → opened w + users ≡ opened (ws k) + users'
    → (0 < users' → value' + total held workers (update ws k w) ≡ 1)
    → ((a : ℕ) → w.place ≡ storing a → a ≡ global)
    → Guarded n global value users ws
    → Guarded n global value' users' (update ws k w)
Guarded-put n global value users value' users' ws k w l inc round paid_same open_same holds reads
      g =
    record {
      counted = omega (arith, total-update opened workers k ws w l, g.counted, open_same);
      one_holder = holds;
      fresh = λ j a.
          update_split (λ j x. x.place ≡ storing a → a ≡ global) ws k w (reads a)
            (λ j l ne. g.fresh j a l) j;
      summed =
          g.summed
          ∙ ap (λ t. t % int_mod) (omega (arith, total-update paid workers k ws w l, paid_same));
      signed = update_split (λ j x. x.inc ≡ inc_of j) ws k w inc (λ j l ne. g.signed j l);
      rounds = update_split (λ j x. InRound n x.i x.place) ws k w round (λ j l ne. g.rounds j l);
    }

holding-storing : (p : Place) (a : ℕ) → p ≡ storing a → holding p ≡ 1
unfolding holding
holding-storing p a e = rw e refl

-- The process that writes is the only one that has read.
pub Guarded-write :
    (n global value users a : ℕ) (ws : ℕ → Worker) (k : ℕ) (w : Worker)
    → k < workers
    → 0 < users
    → (ws k).place ≡ storing a
    → w.inc ≡ inc_of k
    → InRound n w.i w.place
    → paid w ≡ paid (ws k) + inc_of k
    → opened w ≡ opened (ws k)
    → held w ≡ 1
    → ((b : ℕ) → ¬ (w.place ≡ storing b))
    → Guarded n global value users ws
    → Guarded n ((a + inc_of k) % int_mod) value users (update ws k w)
Guarded-write n global value users a ws k w l pos at inc round paid_more open_same hold out g =
    let mine : held (ws k) ≡ 1 = holding-storing (ws k).place a at in
    record {
      counted = omega (arith, total-update opened workers k ws w l, g.counted, open_same);
      one_holder =
          λ p. omega (arith, total-update held workers k ws w l, g.one_holder pos, hold, mine);
      fresh = λ j b.
          update_split (λ j x. x.place ≡ storing b → b ≡ (a + inc_of k) % int_mod) ws k w
            (λ e. absurd (out b e))
            (λ j q ne e. absurd (
              omega (
                arith,
                total_two held workers j k ws q l ne,
                holding-storing (ws j).place b e,
                mine,
                g.one_holder pos,
              )))
            j;
      summed =
          ap (λ t. (t + inc_of k) % int_mod) (g.fresh k a l at ∙ g.summed)
          ∙ mod-add-mod (total paid workers ws) int_mod (inc_of k)
          ∙ ap (λ t. t % int_mod) (omega (arith, total-update paid workers k ws w l, paid_more));
      signed = update_split (λ j x. x.inc ≡ inc_of j) ws k w inc (λ j l ne. g.signed j l);
      rounds = update_split (λ j x. InRound n x.i x.place) ws k w round (λ j l ne. g.rounds j l);
    }
