-- ===== src/Shell/Synchro/Sum.antt =====
-- testSynchro.c: with the semaphore, what the processes add up to.
use g21_tp2_so_1c.Base.{
  ℕ, zero, suc, ◌+◌, ◌-◌, ◌%◌, ◌<◌, ◌≤◌, ◌≡◌, ◌==◌, true, refl, arith, ltb, Option, none, some,
  by_bool, subst, sym, ap, ◌∙◌,
}
use g21_tp2_so_1c.Shell.Synchro.{
  Place, opening, testing, waiting, loading, storing, posting, closing, ended, Worker, Shared,
  workers, int_mod, update, at_place, advance, my_process_inc, Reach, start, next,
}
use g21_tp2_so_1c.Shell.Synchro.Totals.{total, total-update, total_one, total_le}
use g21_tp2_so_1c.Shell.Synchro.Holds.{
  holding, using_sem, times, written, held, opened, paid, InRound, Guarded, Guarded-put,
  Guarded-write,
}

abbrev pub Sound : ℕ → Shared → Type 0
Sound n s = Guarded n s.global s.value s.users s.worker

-- Sound after a step that runs.
abbrev Kept : ℕ → Option Shared → Type 0
Kept n none = Unit {0}
Kept n (some s) = Sound n s

holding_le_using : (p : Place) → holding p ≤ using_sem p
unfolding holding using_sem
holding_le_using opening = omega arith
holding_le_using testing = omega arith
holding_le_using waiting = omega arith
holding_le_using loading = omega arith
holding_le_using (storing a) = omega arith
holding_le_using posting = omega arith
holding_le_using closing = omega arith
holding_le_using ended = omega arith

held_le_users : (n : ℕ) (s : Shared) → Sound n s → total held workers s.worker ≤ s.users
held_le_users n s g =
    omega (arith, total_le held opened workers s.worker (λ w. holding_le_using w.place), g.counted)

pub in_use :
    (n k : ℕ) (p : Place) (s : Shared)
    → k < workers
    → (s.worker k).place ≡ p
    → using_sem p ≡ 1
    → Sound n s
    → 0 < s.users
in_use n k p s l at e g =
    omega (arith, total_one opened workers k s.worker l, g.counted, ap using_sem at, e)

-- A process goes from the statement `p` to `q`, with `i` rounds done.
go :
    (n k value users i : ℕ) (p q : Place) (s : Shared)
    → k < workers
    → (s.worker k).place ≡ p
    → Sound n s
    → (InRound n (s.worker k).i p → InRound n i q)
    → written i q ≡ written (s.worker k).i p
    → using_sem q + s.users ≡ using_sem p + users
    → ((h : ℕ)
        → h + holding p ≡ total held workers s.worker + holding q
        → 0 < users
        → value + h ≡ 1)
    → ((a : ℕ) → q ≡ storing a → a ≡ s.global)
    → Guarded n s.global value users
        (update s.worker k (record { inc = (s.worker k).inc; i = i; place = q }))
unfolding paid
go n k value users i p q s l at g round same open_same holds reads =
    let w : Worker = record { inc = (s.worker k).inc; i = i; place = q } in
    Guarded-put n s.global s.value s.users value users s.worker k w l (g.signed k l)
      (round (subst (InRound n (s.worker k).i) at (g.rounds k l)))
      (ap (λ m. times m (s.worker k).inc) (same ∙ ap (written (s.worker k).i) (sym at)))
      (omega (arith, open_same, ap using_sem at))
      (holds (total held workers (update s.worker k w))
        (omega (arith, total-update held workers k s.worker w l, ap holding at)))
      reads g

paid-storing :
    (a : ℕ) (w : Worker)
    → w.place ≡ storing a
    → paid (record { inc = w.inc; i = w.i; place = posting }) ≡ paid w + w.inc
unfolding paid written times
paid-storing a w e = ap (λ p. times (written w.i p) w.inc + w.inc) (sym e)

advance-Kept :
    (n : ℕ) (p : Place) (k : ℕ) (s : Shared)
    → k < workers
    → (s.worker k).place ≡ p
    → Sound n s
    → Kept n (advance true n p k s)
unfolding advance holding using_sem written
advance-Kept n opening k s l at g =
    let few : total held workers s.worker ≤ s.users = held_le_users n s g in
    by_bool (λ t. Kept n (some (at_place k testing t))) (s.users == 0) _ _
      (λ e.
        go n k 1 1 (s.worker k).i opening testing s l at g (λ r. r) refl (ground (arith, e))
          (λ h q m. ground (arith, e, few, q)) (λ a q. ground (arith, q)))
      (λ e.
        go n k s.value (s.users + 1) (s.worker k).i opening testing s l at g (λ r. r) refl
          (omega arith) (λ h q m. ground (arith, e, q, g.one_holder)) (λ a q. ground (arith, q)))
advance-Kept n testing k s l at g =
    by_bool (λ q. Kept n (some (at_place k q s))) (ltb (s.worker k).i n) _ _
      (λ e.
        go n k s.value s.users (s.worker k).i testing waiting s l at g (λ r. ground (arith, e)) refl
          refl (λ h q m. omega (arith, q, g.one_holder m)) (λ a q. ground (arith, q)))
      (λ e.
        go n k s.value s.users (s.worker k).i testing closing s l at g (λ r. ground (arith, e, r))
          refl refl (λ h q m. omega (arith, q, g.one_holder m)) (λ a q. ground (arith, q)))
advance-Kept n waiting k s l at g =
    by_bool (Kept n) (ltb 0 s.value) _ none
      (λ e.
        go n k (s.value - 1) s.users (s.worker k).i waiting loading s l at g (λ r. r) refl refl
          (λ h q m. ground (arith, e, q, g.one_holder m)) (λ a q. ground (arith, q)))
      (λ e. tt)
advance-Kept n loading k s l at g =
    go n k s.value s.users (s.worker k).i loading (storing s.global) s l at g (λ r. r) refl refl
      (λ h q m. omega (arith, q, g.one_holder m)) (λ a q. ground (arith, q))
advance-Kept n (storing a) k s l at g =
    let w : Worker = record { inc = (s.worker k).inc; i = (s.worker k).i; place = posting } in
    subst (λ c. Guarded n ((a + c) % int_mod) s.value s.users (update s.worker k w))
      (sym (g.signed k l))
      (Guarded-write n s.global s.value s.users a s.worker k w l
        (in_use n k (storing a) s l at refl g) at (g.signed k l)
        (subst (InRound n (s.worker k).i) at (g.rounds k l))
        (paid-storing a (s.worker k) at ∙ ap (λ c. paid (s.worker k) + c) (g.signed k l))
        (sym (ap using_sem at)) refl (λ b e. ground (arith, e)) g)
advance-Kept n posting k s l at g =
    go n k (s.value + 1) s.users ((s.worker k).i + 1) posting testing s l at g
      (λ r. omega (arith, r)) (omega arith) refl (λ h q m. omega (arith, q, g.one_holder m))
      (λ a q. ground (arith, q))
advance-Kept n closing k s l at g =
    go n k s.value (s.users - 1) (s.worker k).i closing ended s l at g (λ r. r) refl
      (omega (arith, in_use n k closing s l at refl g))
      (λ h q m. omega (arith, q, g.one_holder (omega (arith, m)))) (λ a q. ground (arith, q))
advance-Kept n ended k s l at g = tt

Kept-some : (n : ℕ) (o : Option Shared) (s : Shared) → Kept n o → o ≡ some s → Sound n s
Kept-some n o s k e = subst (Kept n) e k

pub total_none :
    {A : Type 0} (w : A → ℕ) (n : ℕ) (f : ℕ → A) → ((j : ℕ) → j < n → w (f j) ≡ 0) → total w n f ≡ 0
unfolding total
total_none w zero f h = refl
total_none w (suc n) f h =
    omega (arith, h n (omega arith), total_none w n f (λ j l. h j (omega arith)))

pub Reach-Sound : (n : ℕ) {s : Shared} → Reach true n s → Sound n s
unfolding my_process_inc holding using_sem paid written times
Reach-Sound n start = record {
  counted = total_none opened workers _ (λ j l. refl);
  one_holder = λ p. omega arith;
  fresh = λ j a l e. ground (arith, e);
  summed = ap (λ t. t % int_mod) (sym (total_none paid workers _ (λ j l. refl)));
  signed = λ j l. refl;
  rounds = λ j l. omega arith;
}
Reach-Sound n (next {s} {t} k r l e) =
    Kept-some n (my_process_inc true n k s) t
      (advance-Kept n (s.worker k).place k s l refl (Reach-Sound n r)) e
