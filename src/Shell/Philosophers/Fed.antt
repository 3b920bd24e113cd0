-- ===== src/Shell/Philosophers/Fed.antt =====
-- phylo.c: whom a philosopher waits for that sleeps hungry.
use g21_tp2_so_1c.Base.{
  ℕ, ◌<◌, ◌≡◌, ◌==◌, Bool, true, false, ◌||◌, ◌⊎◌, inl, inr, arith, ℕ_discrete, Bool-cases, subst,
  sym,
}
use g21_tp2_so_1c.Shell.Philosophers.{
  Mood, thinking, is_eating, is_hungry, Pc, take_post, take_sleep, put_left, put_right, update,
  left, right,
}
use g21_tp2_so_1c.Shell.Philosophers.Orderly.{right-left, left-right}

-- Hungry and after its own test.
abbrev pub waits : Pc → Mood → Bool
waits take_post m = is_hungry m
waits take_sleep m = is_hungry m
waits _ m = false

abbrev pub blocked : ℕ → (ℕ → Mood) → ℕ → Bool
blocked c state i = is_eating (state (left c i)) || is_eating (state (right c i))

-- Philosopher `k` is about to test philosopher `i`, as it puts its forks back.
abbrev pub owes : Pc → ℕ → ℕ → ℕ → Bool
owes put_left c k i = left c k == i || right c k == i
owes put_right c k i = right c k == i
owes _ c k i = false

abbrev pub Fed : ℕ → (ℕ → Mood) → (ℕ → Pc) → Type 0
Fed c state pc =
    (i : ℕ)
    → i < c
    → waits (pc i) (state i) ≡ true
    → (blocked c state i ≡ true) ⊎ ((k : ℕ) × (k < c) × (owes (pc k) c k i ≡ true))

waits-hungry : (p : Pc) (m : Mood) → waits p m ≡ true → is_hungry m ≡ true
waits-hungry take_post m e = e
waits-hungry take_sleep m e = e
waits-hungry p m e = ground arith

update_here {ℓ} : {A : Type ℓ} (f : ℕ → A) (k : ℕ) (a : A) → update f k a k ≡ a
update_here f k a = ground arith

update_there {ℓ} : {A : Type ℓ} (f : ℕ → A) (k j : ℕ) (a : A) → ¬ (k ≡ j) → update f k a j ≡ f j
update_there f k j a n = ground arith

module _ (c : ℕ) (state : ℕ → Mood) (pc : ℕ → Pc) where
  -- What holds of a philosopher that waits after a step of `k`: it is blocked, `k` owes it a test, or it
  -- waited before, was owed none by `k`, and stays blocked if it was.
  abbrev Settled : ℕ → Pc → (ℕ → Mood) → ℕ → Type 0
  Settled k p state' i =
      (blocked c state' i ≡ true)
      ⊎ ((owes p c k i ≡ true)
          ⊎ ((waits (pc i) (state i) ≡ true)
              × (owes (pc k) c k i ≡ false)
              × (blocked c state i ≡ true → blocked c state' i ≡ true)))

  Fed-step :
      Fed c state pc
      → (k : ℕ) (p : Pc) (state' : ℕ → Mood) → k < c
      → ((i : ℕ) → i < c → waits (update pc k p i) (state' i) ≡ true → Settled k p state' i)
      → Fed c state' (update pc k p)
  Fed-step f k p state' l h i r w = elim (h i r w) [
    | inl b ↦ inl b
    | inr (inl o) ↦ inr (k, l, subst (λ (q : Pc). owes q c k i ≡ true) (sym (update_here pc k p)) o)
    | inr (inr (was, free, stays)) ↦ elim (f i r was) [
      | inl b ↦ inl (stays b)
      | inr (j, m, o) ↦ inr (
        j,
        m,
        subst (λ (q : Pc). owes q c j i ≡ true)
            (sym (update_there pc k j p (λ e. ground (arith, e)))) o,
      )
    ]
  ]

  -- A step of a philosopher that owes no test, after which nobody new waits and nobody stops to eat.
  pub Fed-quiet :
      Fed c state pc
      → (k : ℕ) (p : Pc) (m : Mood) → k < c
      → ((i : ℕ) → owes (pc k) c k i ≡ false)
      → (is_eating (state k) ≡ true → is_eating m ≡ true)
      → (waits p m ≡ true → waits (pc k) (state k) ≡ true)
      → Fed c (update state k m) (update pc k p)
  Fed-quiet f k p m l o e w =
      Fed-step f k p (update state k m) l
        (λ i r q. inr (inr (ground arith, o i, λ b. ground arith)))

  -- A philosopher that puts its forks back owes both neighbours a test.
  pub Fed-think :
      Fed c state pc
      → (k : ℕ) → k < c
      → ((i : ℕ) → owes (pc k) c k i ≡ false)
      → Fed c (update state k thinking) (update pc k put_left)
  Fed-think f k l o = Fed-step f k put_left (update state k thinking) l (λ i r q.
      elim (ℕ_discrete (left c i) k) [
        | yes e ↦ inr (inl (ground (arith, e, right-left c i r)))
        | no n ↦ elim (ℕ_discrete (right c i) k) [
          | yes e ↦ inr (inl (ground (arith, e, left-right c i r)))
          | no m ↦ inr (inr (ground arith, o i, λ b. ground (arith, n, m)))
        ]
      ])

  -- After its test, a philosopher eats or is blocked.
  unfoldable pub Tested : ℕ → (ℕ → Mood) → Type 0
  Tested j state' =
      ((i : ℕ) → is_eating (state i) ≡ true → is_eating (state' i) ≡ true)
      × ((i : ℕ) → ¬ (i ≡ j) → state' i ≡ state i)
      × (is_hungry (state' j) ≡ true → blocked c state' j ≡ true)

  waited :
      (k : ℕ) (p : Pc) (state' : ℕ → Mood) (i j : ℕ)
      → ¬ (i ≡ j)
      → state' i ≡ state i
      → waits (update pc k p i) (state' i) ≡ true
      → ((m : Mood) → ¬ (k ≡ j) → waits p m ≡ false)
      → waits (pc i) (state i) ≡ true
  waited k p state' i j n e q w = elim (ℕ_discrete k i) [
    | yes at ↦ ground (arith, at, w (state' i))
    | no off ↦ subst (λ (m : Mood). waits (pc i) m ≡ true) e (ground (arith, off, q))
  ]

  -- A step that tests `j`, and leaves no other test that was owed undone.
  pub Fed-Tested :
      Fed c state pc
      → (k j : ℕ) (p : Pc) (state' : ℕ → Mood) → k < c
      → Tested j state'
      → ((i : ℕ) → ¬ (i ≡ j) → owes (pc k) c k i ≡ true → owes p c k i ≡ true)
      → ((m : Mood) → ¬ (k ≡ j) → waits p m ≡ false)
      → Fed c state' (update pc k p)
  unfolding Tested
  Fed-Tested f k j p state' l t o w = Fed-step f k p state' l (λ i r q. elim (ℕ_discrete i j) [
    | yes e ↦ inl (
        subst (λ (a : ℕ). blocked c state' a ≡ true) (sym e)
          (t.2 (
            subst (λ (a : ℕ). is_hungry (state' a) ≡ true) e
              (waits-hungry (update pc k p i) (state' i) q))))
    | no n ↦ elim (Bool-cases (owes (pc k) c k i)) [
      | inl due ↦ inr (inl (o i n due))
      | inr free ↦ inr (
          inr (
            waited k p state' i j n (t.1 i n) q w,
            free,
            λ b. ground (arith, t.0 (left c i), t.0 (right c i)),
          ))
    ]
  ])
