-- ===== src/Kernel/Semaphores/References.antt =====
-- synchro.c: `semOpen`, `semClose` and the users of a semaphore.
use g21_tp2_so_1c.Base.{
  ap₂, ℕ, zero, suc, ◌+◌, ◌-◌, ◌%◌, ◌^◌, ◌<◌, ◌≡◌, refl, ap, sym, ◌∙◌, subst, inl, inr, List, [],
  ◌∷◌, Option, none, some, Bool, true, not, ◌&&◌, ◌||◌, set, ltb, leb, arith, Bool-cases, by_option,
  by_bool, if◌then◌else◌, get_or-set_self,
}
use mathlib.Core.Option
use g21_tp2_so_1c.Base.Slots.{slot, find_slot, slot-bound, FirstSlot, find_slot-FirstSlot}
use g21_tp2_so_1c.Kernel.State.{Semaphore, Kernel}
use g21_tp2_so_1c.Kernel.Semaphores.{
  max_semaphores, is_named, get_idx_by_name, sem_open, sem_close, put_semaphore, with_sems,
  with_using, int_mod, positive,
}

module _ {A : Type 0} where
  find_slot-replace :
      (p : Option A → Bool) (l : List (Option A)) (i : ℕ) (x : Option A)
      → find_slot p l ≡ some i
      → p x ≡ true
      → find_slot p (set l i x) ≡ some i
  unfolding find_slot
  find_slot-replace p [] i x e h = cc
  find_slot-replace p (y ∷ l) zero x e h = rw h refl
  find_slot-replace p (y ∷ l) (suc i) x e h = elim (Bool-cases (p y)) [
    | inl t ↦ absurd (
        let z : some 0 ≡ some (suc i) =
          subst (λ b. (if b then some 0 else Option.map suc (find_slot p l)) ≡ some (suc i)) t e in
        cc)
    | inr n ↦ rw n (
        ap (Option.map suc) (
          find_slot-replace p l i x
            (later (find_slot p l) (
              subst (λ b. (if b then some 0 else Option.map suc (find_slot p l)) ≡ some (suc i)) n
                e))
            h))
  ]
    where
      later : (r : Option ℕ) → Option.map suc r ≡ some (suc i) → r ≡ some i
      later none q = cc
      later (some j) q = cc

  set-restore :
      (l : List (Option A)) (i : ℕ) (x : Option A) (a : A)
      → slot l i ≡ some a
      → set (set l i x) i (some a) ≡ l
  set-restore [] i x a e = refl
  set-restore (y ∷ l) zero x a e = ap (λ z. z ∷ l) (sym e)
  set-restore (y ∷ l) (suc i) x a e = ap (λ m. y ∷ m) (set-restore l i x a e)

abbrev used_by : ℕ → Semaphore → Semaphore
used_by n s = record s { using = n; lock = 1 }

used_by_self : (s : Semaphore) (n : ℕ) → n ≡ s.using → s.lock ≡ 1 → used_by n s ≡ s
used_by_self s n e l = ap₂ (λ a b. record s { using = a; lock = b }) e (sym l)

closes :
    (name : List ℕ) (i : ℕ) (s : Semaphore) (k : Kernel)
    → k.sems.up ≡ true
    → get_idx_by_name name k.sems ≡ some i
    → slot k.sems.semaphores i ≡ some s
    → is_named name (some s) ≡ true
    → s.lock ≡ 1
    → 0 < s.using
    → s.using + 1 < 2 ^ 31
    → (sem_close name
        (with_sems (put_semaphore i (some (with_using ((s.using + 1) % int_mod) s))) k)).1
      ≡ k
unfolding sem_close get_idx_by_name
closes name i s k up at here named free lo hi =
    let u = with_using ((s.using + 1) % int_mod) s in
    let l = k.sems.semaphores in
    let found = find_slot-replace (is_named name) l i (some u) at named in
    let own = get_or-set_self l i (some u) none (slot-bound l i s here) in
    by_bool (λ (x : Option ℕ × Kernel). x.1 ≡ k) (not k.sems.up) _ _ (λ y. absurd (ground arith))
      (λ _.
        by_option (λ (x : Option ℕ × Kernel). x.1 ≡ k)
          (find_slot (is_named name) (set l i (some u))) _ _ (λ n. absurd (cc))
          (λ j e.
            let same_place : i ≡ j = cc in
            by_option (λ (x : Option ℕ × Kernel). x.1 ≡ k) (slot (set l i (some u)) j) _ _
              (λ n. absurd (let z = ap (slot (set l i (some u))) same_place in cc))
              (λ t z.
                let same : u ≡ t = let y = ap (slot (set l i (some u))) same_place in cc in
                let one_more : t.using ≡ s.using + 1 =
                  ap (λ (v : Semaphore). v.using) (sym same) ∙ omega arith in
                by_bool (λ (x : Option ℕ × Kernel). x.1 ≡ k) (positive t.using && ltb 1 t.using) _ _
                  (λ _.
                    ap (λ m. with_sems (λ q. record q { semaphores = m }) k)
                      (ap₂ (λ a b. set (set l i (some u)) a (some b)) (sym same_place)
                          (ap (λ v. with_using (t.using - 1) v) (sym same)
                            ∙ used_by_self s (t.using - 1) (omega arith) free)
                        ∙ set-restore l i (some u) s here))
                  (λ n. absurd (ground arith)))))

-- An open of a semaphore that exists, closed again, leaves the kernel as it was, where the manager is
-- up with fewer than 256 semaphores, the lock is free and the number of users is from 1 to 2^31 - 2.
pub sem_open-sem_close :
    (name : List ℕ) (initial i : ℕ) (s : Semaphore) (k : Kernel)
    → k.sems.up ≡ true
    → k.sems.semaphores_count < max_semaphores
    → get_idx_by_name name k.sems ≡ some i
    → slot k.sems.semaphores i ≡ some s
    → s.lock ≡ 1
    → 0 < s.using
    → s.using + 1 < 2 ^ 31
    → (sem_close name (sem_open name initial k).1).1 ≡ k
unfolding sem_open get_idx_by_name
sem_open-sem_close name initial i s k up room at here free lo hi =
    let f =
      subst (FirstSlot (is_named name) k.sems.semaphores) at
        (find_slot-FirstSlot (is_named name) k.sems.semaphores) in
    let named : is_named name (some s) ≡ true = ap (is_named name) (sym here) ∙ f.1 in
    by_bool (λ (x : Option ℕ × Kernel). (sem_close name x.1).1 ≡ k)
      (not k.sems.up || leb max_semaphores k.sems.semaphores_count) _ _ (λ y. absurd (ground arith))
      (λ _.
        by_option (λ (x : Option ℕ × Kernel). (sem_close name x.1).1 ≡ k)
          (find_slot (is_named name) k.sems.semaphores) _ _ (λ n. absurd (cc))
          (λ j e.
            by_option (λ (x : Option ℕ × Kernel). (sem_close name x.1).1 ≡ k)
              (slot k.sems.semaphores j) _ _
              (λ n.
                absurd (let same : i ≡ j = cc in let z = ap (slot k.sems.semaphores) same in cc))
              (λ t z.
                let place : i ≡ j = cc in
                let same : s ≡ t = let y = ap (slot k.sems.semaphores) place in cc in
                closes name j t k up e z (subst (λ v. is_named name (some v) ≡ true) same named)
                  (subst (λ (v : Semaphore). v.lock ≡ 1) same free)
                  (subst (λ (v : Semaphore). 0 < v.using) same lo)
                  (subst (λ (v : Semaphore). v.using + 1 < 2 ^ 31) same hi))))
