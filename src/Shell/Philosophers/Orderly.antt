-- ===== src/Shell/Philosophers/Orderly.antt =====
-- phylo.c: what holds of the state, the semaphores and the places of the philosophers, whatever is
-- printed.
use g21_tp2_so_1c.Base.{
  ℕ, ◌+◌, ◌-◌, ◌<◌, ◌≤◌, ◌≡◌, ◌==◌, Bool, true, false, ◌⊎◌, inl, inr, arith, Bool-cases,
  if◌then◌else◌, ℕ_discrete,
}
use g21_tp2_so_1c.Base.Ring.{mod_next, mod_back}
use g21_tp2_so_1c.Shell.Philosophers.{
  Mood, thinking, hungry, eating, is_eating, Pc, think, take_wait, take_hungry, take_test,
  take_post, take_sleep, eat, put_wait, put_think, put_left, put_right, put_post, update, left,
  right,
}

abbrev pub critical : Pc → Bool
critical take_hungry = true
critical take_test = true
critical take_post = true
critical put_think = true
critical put_left = true
critical put_right = true
critical put_post = true
critical _ = false

-- What a philosopher's place says of its state and of its semaphore.
abbrev pub Agrees : Pc → Mood → ℕ → Type 0
Agrees think m v = (m ≡ thinking) × (v ≡ 0)
Agrees take_wait m v = (m ≡ thinking) × (v ≡ 0)
Agrees take_hungry m v = (m ≡ thinking) × (v ≡ 0)
Agrees take_test m v = (m ≡ hungry) × (v ≡ 0)
Agrees take_post m v = ((m ≡ hungry) × (v ≡ 0)) ⊎ ((m ≡ eating) × (v ≡ 1))
Agrees take_sleep m v = ((m ≡ hungry) × (v ≡ 0)) ⊎ ((m ≡ eating) × (v ≡ 1))
Agrees eat m v = (m ≡ eating) × (v ≡ 0)
Agrees put_wait m v = (m ≡ eating) × (v ≡ 0)
Agrees put_think m v = (m ≡ eating) × (v ≡ 0)
Agrees put_left m v = (m ≡ thinking) × (v ≡ 0)
Agrees put_right m v = (m ≡ thinking) × (v ≡ 0)
Agrees put_post m v = (m ≡ thinking) × (v ≡ 0)

-- No two neighbours eat.
abbrev pub Apart : ℕ → (ℕ → Mood) → Type 0
Apart c state =
    (i : ℕ) → i < c → 1 < c → is_eating (state i) ≡ true → is_eating (state (right c i)) ≡ false

pub record Orderly (c : ℕ) (state : ℕ → Mood) (pc : ℕ → Pc) (sems : ℕ → ℕ) (mutex : ℕ)
    : Type 0 where
  pub small : mutex ≤ 1
  pub locked : (i : ℕ) → i < c → critical (pc i) ≡ true → mutex ≡ 0
  pub one_holder :
      (i j : ℕ) → i < c → j < c → critical (pc i) ≡ true → critical (pc j) ≡ true → i ≡ j
  pub agrees : (i : ℕ) → i < c → Agrees (pc i) (state i) (sems i)
  pub apart : Apart c state

pub right_eq : (c i : ℕ) → i < c → right c i ≡ (if i + 1 == c then 0 else i + 1)
right_eq c i p = ground (arith, mod_next c i p)

pub left_eq : (c i : ℕ) → i < c → left c i ≡ (if i == 0 then c - 1 else i - 1)
left_eq c i p = mod_back c i p

pub right-lt : (c i : ℕ) → i < c → right c i < c
right-lt c i p = ground (arith, right_eq c i p)

pub left-lt : (c i : ℕ) → i < c → left c i < c
left-lt c i p = ground (arith, left_eq c i p)

pub left-right : (c i : ℕ) → i < c → left c (right c i) ≡ i
left-right c i p = ground (arith, right_eq c i p, left_eq c (right c i) (right-lt c i p))

pub right-left : (c i : ℕ) → i < c → right c (left c i) ≡ i
right-left c i p = ground (arith, left_eq c i p, right_eq c (left c i) (left-lt c i p))

pub right-ne : (c i : ℕ) → i < c → 1 < c → ¬ (right c i ≡ i)
right-ne c i p q e = ground (arith, right_eq c i p)

-- A philosopher may start to eat where neither neighbour does.
abbrev pub May : ℕ → (ℕ → Mood) → ℕ → Type 0
May c state j =
    (is_eating (state j) ≡ true)
    ⊎ ((is_eating (state (left c j)) ≡ false) × (is_eating (state (right c j)) ≡ false))

pub Apart-update :
    (c : ℕ) (state : ℕ → Mood) (j : ℕ) (m : Mood)
    → j < c
    → (is_eating m ≡ true → May c state j)
    → Apart c state
    → Apart c (update state j m)
Apart-update c state j m p may ap i q two e = elim (Bool-cases (is_eating m)) [
  | inl on ↦ elim (may on) [
    | inl was ↦ elim (ℕ_discrete j (right c i)) [
      | yes at ↦ ground (arith, at, right-ne c i q two, ap i q two)
      | no off ↦ ground (arith, off, ap i q two, ap j p two)
    ]
    | inr free ↦ elim (ℕ_discrete j (right c i)) [
      | yes at ↦ ground (arith, at, right-ne c i q two, left-right c i q)
      | no off ↦ ground (arith, off, ap i q two)
    ]
  ]
  | inr out ↦ ground (arith, ap i q two)
]

-- How a step of one philosopher changes the mutex.
abbrev pub Trade : Bool → Bool → ℕ → ℕ → Type 0
Trade false true m m' = (m ≡ 1) × (m' ≡ 0)
Trade true false m m' = (m' ≡ 1)
Trade _ _ m m' = m' ≡ m

module _ {c : ℕ} {state : ℕ → Mood} {pc : ℕ → Pc} {sems : ℕ → ℕ} {mutex : ℕ} where
  -- A philosopher goes on, and changes its own state and semaphore at most.
  pub Orderly-move :
      Orderly c state pc sems mutex
      → (i : ℕ) (p : Pc) (m : Mood) (v mutex' : ℕ) → i < c
      → Agrees p m v
      → (is_eating m ≡ true → May c state i)
      → Trade (critical (pc i)) (critical p) mutex mutex'
      → Orderly c (update state i m) (update pc i p) (update sems i v) mutex'
  Orderly-move o i p m v mutex' l a may t = record {
    small = ground arith;
    locked = λ j q e. ground (arith, o.locked j q, o.one_holder i j l q);
    one_holder = λ j k q r e f. ground (
      arith,
      o.one_holder j k q r,
      o.one_holder i j l q,
      o.one_holder i k l r,
      o.locked j q,
      o.locked k r,
    );
    agrees = λ j q. ground (arith, o.agrees j q);
    apart = Apart-update c state i m l may o.apart;
  }

  -- The holder of the mutex wakes a philosopher that sleeps.
  pub Orderly-serve :
      Orderly c state pc sems mutex
      → (i j : ℕ) → i < c
      → j < c
      → critical (pc i) ≡ true
      → ¬ (i ≡ j)
      → state j ≡ hungry
      → May c state j
      → Orderly c (update state j eating) pc (update sems j (sems j + 1)) mutex
  Orderly-serve o i j l r hold ne hun may = record {
    small = o.small;
    locked = o.locked;
    one_holder = o.one_holder;
    agrees = λ k q. ground (arith, o.agrees k q, o.one_holder i k l q hold);
    apart = Apart-update c state j eating r (λ _. may) o.apart;
  }
