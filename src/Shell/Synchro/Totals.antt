-- ===== src/Shell/Synchro/Totals.antt =====
-- Sums over the processes of a test.
use g21_tp2_so_1c.Base.{ℕ, zero, suc, ◌+◌, ◌≤◌, ◌<◌, ◌≡◌, refl, arith, ℕ_discrete}
use g21_tp2_so_1c.Shell.Synchro.{update}

module _ {ℓ} {A : Type ℓ} (w : A → ℕ) where
  unfoldable pub total : ℕ → (ℕ → A) → ℕ
  total zero f = 0
  total (suc n) f = total n f + w (f n)

  total-update_past : (n k : ℕ) (f : ℕ → A) (a : A) → n ≤ k → total n (update f k a) ≡ total n f
  unfolding total
  total-update_past zero k f a h = refl
  total-update_past (suc n) k f a h = ground (arith, total-update_past n k f a)

  pub total-update :
      (n k : ℕ) (f : ℕ → A) (a : A) → k < n → total n (update f k a) + w (f k) ≡ total n f + w a
  unfolding total
  total-update zero k f a h = absurd (omega arith)
  total-update (suc n) k f a h = elim (ℕ_discrete k n) [
    | yes e ↦ ground (arith, e, total-update_past n k f a)
    | no ne ↦ ground (arith, ne, total-update n k f a)
  ]

  pub total_one : (n k : ℕ) (f : ℕ → A) → k < n → w (f k) ≤ total n f
  unfolding total
  total_one zero k f h = absurd (omega arith)
  total_one (suc n) k f h = elim (ℕ_discrete k n) [
    | yes e ↦ ground (arith, e)
    | no ne ↦ ground (arith, ne, total_one n k f)
  ]

  -- Two of them together.
  pub total_two :
      (n j k : ℕ) (f : ℕ → A) → j < n → k < n → ¬ (j ≡ k) → w (f j) + w (f k) ≤ total n f
  unfolding total
  total_two zero j k f p q h = absurd (omega arith)
  total_two (suc n) j k f p q h = elim (ℕ_discrete j n) [
    | yes e ↦ ground (arith, e, total_one n k f)
    | no ne ↦ elim (ℕ_discrete k n) [
      | yes e ↦ ground (arith, e, total_one n j f)
      | no nf ↦ ground (arith, ne, nf, total_two n j k f)
    ]
  ]

pub total_le {ℓ} :
    {A : Type ℓ} (v w : A → ℕ) (n : ℕ) (f : ℕ → A)
    → ((a : A) → v a ≤ w a)
    → total v n f ≤ total w n f
unfolding total
total_le v w zero f h = omega arith
total_le v w (suc n) f h = omega (arith, h (f n), total_le v w n f h)
