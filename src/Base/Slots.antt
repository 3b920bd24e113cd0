-- ===== src/Base/Slots.antt =====
-- Tables of pointers, NULL or not: the process table, the semaphores and the pipes.
use Prim.Native.Nat.{ℕ, zero, suc, ◌+◌, ◌≤◌, ◌<◌}
use mathlib.Core.Path.{subst₂, ◌≡◌, refl, ap, sym, ◌∙◌}
use mathlib.Core.Logic.{inl, inr, ◌⊎◌}
use mathlib.Core.Bool.{Bool, true, false}
use mathlib.Core.Option
use mathlib.Core.Option.{Option, none, some}
use mathlib.Core.List.{map, List, [], ◌∷◌}
use native.Mathlib.Omega.{arith}
use g21_tp2_so_1c.Base.Tests.{if◌then◌else◌, Bool-cases, Option-cases}
use g21_tp2_so_1c.Base.Lists.{length, get_or, set}

module _ {ℓ} {A : Type ℓ} where
  -- The entry at an index; NULL past the end.
  abbrev pub slot : List (Option A) → ℕ → Option A
  slot l i = get_or l i none

  abbrev pub is_null : Option A → Bool
  is_null none = true
  is_null (some a) = false

  abbrev pub occupied : List (Option A) → ℕ
  occupied [] = 0
  occupied (none ∷ l) = occupied l
  occupied (some a ∷ l) = suc (occupied l)

  -- The loop `for (i = 0; i < N; i++) if (test(table[i])) return i;`.
  unfoldable pub find_slot : (Option A → Bool) → List (Option A) → Option ℕ
  find_slot p [] = none
  find_slot p (x ∷ l) = let rest = Option.map suc (find_slot p l) in if p x then some 0 else rest

  pub occupied-le : (l : List (Option A)) → occupied l ≤ length l
  occupied-le [] = omega arith
  occupied-le (none ∷ l) = omega (arith, occupied-le l)
  occupied-le (some a ∷ l) = omega (arith, occupied-le l)

  pub occupied-fill :
      (l : List (Option A)) (i : ℕ) (a : A)
      → i < length l
      → slot l i ≡ none
      → occupied (set l i (some a)) ≡ occupied l + 1
  occupied-fill [] i a h e = absurd (omega arith)
  occupied-fill (none ∷ l) zero a h e = omega arith
  occupied-fill (some x ∷ l) zero a h e = cc
  occupied-fill (none ∷ l) (suc i) a h e = omega (arith, occupied-fill l i a (omega arith) e)
  occupied-fill (some x ∷ l) (suc i) a h e = omega (arith, occupied-fill l i a (omega arith) e)

  pub occupied-replace :
      (l : List (Option A)) (i : ℕ) (a b : A)
      → slot l i ≡ some b
      → occupied (set l i (some a)) ≡ occupied l
  occupied-replace [] i a b e = refl
  occupied-replace (none ∷ l) zero a b e = cc
  occupied-replace (some x ∷ l) zero a b e = refl
  occupied-replace (none ∷ l) (suc i) a b e = occupied-replace l i a b e
  occupied-replace (some x ∷ l) (suc i) a b e = ap suc (occupied-replace l i a b e)

  pub occupied-clear :
      (l : List (Option A)) (i : ℕ) (b : A)
      → slot l i ≡ some b
      → occupied (set l i none) + 1 ≡ occupied l
  occupied-clear [] i b e = cc
  occupied-clear (none ∷ l) zero b e = cc
  occupied-clear (some x ∷ l) zero b e = omega arith
  occupied-clear (none ∷ l) (suc i) b e = occupied-clear l i b e
  occupied-clear (some x ∷ l) (suc i) b e = omega (arith, occupied-clear l i b e)

  pub slot-bound : (l : List (Option A)) (i : ℕ) (a : A) → slot l i ≡ some a → i < length l
  slot-bound [] i a e = cc
  slot-bound (x ∷ l) zero a e = omega arith
  slot-bound (x ∷ l) (suc i) a e = omega (arith, slot-bound l i a e)

  pub set-null_self : (l : List (Option A)) (i : ℕ) → slot l i ≡ none → set l i none ≡ l
  set-null_self [] i e = refl
  set-null_self (x ∷ l) zero e = ap (λ y. y ∷ l) (sym e)
  set-null_self (x ∷ l) (suc i) e = ap (λ m. x ∷ m) (set-null_self l i e)

  -- What the loop returns: the first index that passes, and nothing where none does.
  abbrev pub FirstSlot : (Option A → Bool) → List (Option A) → Option ℕ → Type 0
  FirstSlot p l none = (i : ℕ) → i < length l → p (slot l i) ≡ false
  FirstSlot p l (some i) =
      (i < length l) × (p (slot l i) ≡ true) × ((j : ℕ) → j < i → p (slot l j) ≡ false)

  skip-FirstSlot :
      (p : Option A → Bool) (x : Option A) (l : List (Option A)) (r : Option ℕ)
      → p x ≡ false
      → FirstSlot p l r
      → FirstSlot p (x ∷ l) (Option.map suc r)
  skip-FirstSlot p x l none n f = λ i h. past i h
    where
      past : (i : ℕ) → i < suc (length l) → p (slot (x ∷ l) i) ≡ false
      past zero h = n
      past (suc i) h = f i (omega arith)
  skip-FirstSlot p x l (some k) n f = (omega (arith, f.0), f.1, λ j h. past j h)
    where
      past : (j : ℕ) → j < suc k → p (slot (x ∷ l) j) ≡ false
      past zero h = n
      past (suc j) h = f.2 j (omega arith)

  pub find_slot-FirstSlot :
      (p : Option A → Bool) (l : List (Option A)) → FirstSlot p l (find_slot p l)
  unfolding find_slot
  find_slot-FirstSlot p [] = λ i h. absurd (omega arith)
  find_slot-FirstSlot p (x ∷ l) = elim (Bool-cases (p x)) [
    | inl y ↦ rw y (omega arith, y, λ j h. absurd (omega arith))
    | inr n ↦ rw n (skip-FirstSlot p x l (find_slot p l) n (find_slot-FirstSlot p l))
  ]

  -- Where no entry is NULL, the table is full.
  pub full-occupied :
      (l : List (Option A))
      → ((i : ℕ) → i < length l → is_null (slot l i) ≡ false)
      → occupied l ≡ length l
  full-occupied [] f = refl
  full-occupied (none ∷ l) f = let e = f 0 (omega arith) in cc
  full-occupied (some a ∷ l) f = ap suc (full-occupied l (λ i h. f (suc i) (omega arith)))

module _ {ℓ κ} {A : Type ℓ} (P : ℕ → A → Type κ) where
  -- Every entry that is not NULL has the property, at its index.
  abbrev pub EachSlot : List (Option A) → Type (ℓ ⊔ κ)
  EachSlot l = (i : ℕ) (a : A) → slot l i ≡ some a → P i a

module _ {ℓ} {A : Type ℓ} where
  slot-set_cases :
      (l : List (Option A)) (j : ℕ) (x : Option A) (i : ℕ)
      → (slot (set l j x) i ≡ slot l i) ⊎ ((j ≡ i) × (slot (set l j x) i ≡ x))
  slot-set_cases [] j x i = inl refl
  slot-set_cases (y ∷ l) zero x zero = inr (refl, refl)
  slot-set_cases (y ∷ l) zero x (suc i) = inl refl
  slot-set_cases (y ∷ l) (suc j) x zero = inl refl
  slot-set_cases (y ∷ l) (suc j) x (suc i) = elim (slot-set_cases l j x i) [
    | inl e ↦ inl e
    | inr r ↦ inr (ap suc r.0, r.1)
  ]

  pub slot-set_null_cases :
      (l : List (Option A)) (j i : ℕ) (a : A) → slot (set l j none) i ≡ some a → slot l i ≡ some a
  slot-set_null_cases l j i a e = elim (slot-set_cases l j none i) [
    | inl s ↦ sym s ∙ e
    | inr r ↦ absurd (let n = r.1 in cc)
  ]

  pub slot-map :
      (f : Option A → Option A) (l : List (Option A)) (i : ℕ)
      → f none ≡ none
      → slot (map f l) i ≡ f (slot l i)
  slot-map f [] i n = sym n
  slot-map f (x ∷ l) zero n = refl
  slot-map f (x ∷ l) (suc i) n = slot-map f l i n

  pub length-map_slots :
      (f : Option A → Option A) (l : List (Option A)) → length (map f l) ≡ length l
  length-map_slots f [] = refl
  length-map_slots f (x ∷ l) = ap suc (length-map_slots f l)

  occupied_cons-null :
      (x : Option A) (l : List (Option A)) → is_null x ≡ true → occupied (x ∷ l) ≡ occupied l
  occupied_cons-null none l e = refl
  occupied_cons-null (some a) l e = cc

  occupied_cons-used :
      (x : Option A) (l : List (Option A)) → is_null x ≡ false → occupied (x ∷ l) ≡ suc (occupied l)
  occupied_cons-used none l e = cc
  occupied_cons-used (some a) l e = refl

  -- A map that keeps NULL and only NULL leaves the count.
  pub occupied-map :
      (f : Option A → Option A) (l : List (Option A))
      → ((x : Option A) → is_null (f x) ≡ is_null x)
      → occupied (map f l) ≡ occupied l
  occupied-map f [] n = refl
  occupied-map f (none ∷ l) n = occupied_cons-null (f none) (map f l) (n none) ∙ occupied-map f l n
  occupied-map f (some a ∷ l) n =
      occupied_cons-used (f (some a)) (map f l) (n (some a)) ∙ ap suc (occupied-map f l n)

module _ {ℓ κ} {A : Type ℓ} (P : ℕ → A → Type κ) where
  pub EachSlot-set :
      (l : List (Option A)) (j : ℕ) (b : A) → EachSlot P l → P j b → EachSlot P (set l j (some b))
  EachSlot-set l j b h p i a e = elim (slot-set_cases l j (some b) i) [
    | inl s ↦ h i a (sym s ∙ e)
    | inr r ↦ let q = sym r.1 ∙ e in let same : b ≡ a = cc in subst₂ P r.0 same p
  ]

  pub EachSlot-clear : (l : List (Option A)) (j : ℕ) → EachSlot P l → EachSlot P (set l j none)
  EachSlot-clear l j h i a e = h i a (slot-set_null_cases l j i a e)

  pub EachSlot-map :
      (f : Option A → Option A) (l : List (Option A))
      → f none ≡ none
      → ((i : ℕ) (a b : A) → f (some a) ≡ some b → P i a → P i b)
      → EachSlot P l
      → EachSlot P (map f l)
  EachSlot-map f l n keep h i b e = elim (Option-cases (slot l i)) [
    | inl z ↦ absurd (let s = slot-map f l i n in cc)
    | inr (a, z) ↦ keep i a b (let s = slot-map f l i n in cc) (h i a z)
  ]
