-- ===== src/Base/Ring.antt =====
-- Arrays used as rings: a window of `n` entries from index `h` on, going round at `cap`. The
-- semaphore queues, the keyboard buffer and the pipes keep their data so.
use Prim.Native.Nat.{ℕ, zero, suc, ◌+◌, ◌-◌, ◌%◌, ◌≤◌, ◌<◌}
use mathlib.Core.Path.{◌≡◌, refl, ap, ap₂, ◌∙◌}
use mathlib.Core.Logic.{◌≢◌}
use mathlib.Core.List.{List, [], ◌∷◌, ◌++◌}
use native.Mathlib.Nat.{mod-eq_of_lt, mod-eq-sub-mod}
use native.Mathlib.Decide.{dec_lt}
use native.Mathlib.Omega.{arith}
use g21_tp2_so_1c.Base.Tests.{leb, ltb, ◌==◌, if◌then◌else◌}
use g21_tp2_so_1c.Base.Lists.{length, get_or, set, get_or-set_self, get_or-set_ne}

-- The index `n` places after `h`, for `n` up to `cap`.
abbrev pub spot : ℕ → ℕ → ℕ → ℕ
spot cap h n = if ltb (h + n) cap then h + n else h + n - cap

-- How many steps lead from `h` to `k`.
abbrev pub gap : ℕ → ℕ → ℕ → ℕ
gap cap h k = if leb h k then k - h else k + cap - h

pub mod-spot : (cap h n : ℕ) → h < cap → n ≤ cap → (h + n) % cap ≡ spot cap h n
mod-spot cap h n p q = elim (dec_lt (h + n) cap) [
  | yes l ↦ ground (arith, mod-eq_of_lt l)
  | no g ↦ ground (
    arith,
    mod-eq-sub-mod {n = h + n} {m = cap} (omega arith),
    mod-eq_of_lt {n = h + n - cap} {m = cap} (omega arith),
  )
]

pub mod_next : (cap h : ℕ) → h < cap → (h + 1) % cap ≡ spot cap h 1
mod_next cap h p = mod-spot cap h 1 p (omega arith)

-- `(w + cap - 1) % cap`, one step back.
pub mod_back : (cap w : ℕ) → w < cap → (w + cap - 1) % cap ≡ (if w == 0 then cap - 1 else w - 1)
mod_back cap w p = elim (dec_lt 0 w) [
  | yes l ↦ ground (
    arith,
    mod-eq-sub-mod {n = w + cap - 1} {m = cap} (omega arith),
    mod-eq_of_lt {n = w + cap - 1 - cap} {m = cap} (omega arith),
  )
  | no g ↦ ground (arith, mod-eq_of_lt {n = w + cap - 1} {m = cap} (omega arith))
]

module _ (cap : ℕ) where
  abbrev pub window : List ℕ → ℕ → ℕ → List ℕ
  window v h zero = []
  window v h (suc n) = get_or v h 0 ∷ window v ((h + 1) % cap) n

  pub length-window : (v : List ℕ) (h n : ℕ) → length (window v h n) ≡ n
  length-window v h zero = refl
  length-window v h (suc n) = ap suc (length-window v ((h + 1) % cap) n)

  -- A write behind or past a window does not change it.
  pub window-set_outside :
      (v : List ℕ) (k x h n : ℕ)
      → h < cap
      → k < cap
      → n ≤ gap cap h k
      → window (set v k x) h n ≡ window v h n
  window-set_outside v k x h zero p q g = refl
  window-set_outside v k x h (suc n) p q g = ap₂ ◌∷◌ (get_or-set_ne v x 0 (ground arith)) (
      window-set_outside v k x ((h + 1) % cap) n (ground (arith, mod_next cap h p)) q
        (ground (arith, mod_next cap h p)))

  -- Writing just past a window extends it.
  pub window-snoc :
      (v : List ℕ) (k x h n : ℕ)
      → cap ≤ length v
      → h < cap
      → n < cap
      → k ≡ spot cap h n
      → window (set v k x) h (suc n) ≡ window v h n ++ (x ∷ [])
  window-snoc v k x h zero l p q e =
      let e' : k ≡ h = ground arith in rw (e', get_or-set_self v h x 0 (omega arith))
  window-snoc v k x h (suc n) l p q e = ap₂ ◌∷◌ (get_or-set_ne v x 0 (ground arith)) (
      window-snoc v k x ((h + 1) % cap) n l (ground (arith, mod_next cap h p)) (omega arith)
        (ground (arith, mod_next cap h p)))

  pub window-append :
      (v : List ℕ) (h m n k : ℕ)
      → h < cap
      → m ≤ cap
      → k ≡ spot cap h m
      → window v h m ++ window v k n ≡ window v h (m + n)
  window-append v h zero n k p q e =
      let e' : k ≡ h = ground arith in rw e' (ap (window v h) (omega arith))
  window-append v h (suc m) n k p q e =
      let regroup : suc (m + n) ≡ suc m + n = omega arith in
      ap (λ (l : List ℕ). get_or v h 0 ∷ l)
        (window-append v ((h + 1) % cap) m n k (ground (arith, mod_next cap h p)) (omega arith)
          (ground (arith, mod_next cap h p)))
      ∙ ap (window v h) regroup

  -- The code tests for zero, `window` matches on `suc`.
  pub window_of_pos :
      (v : List ℕ) (h n : ℕ)
      → n ≢ 0
      → window v h n ≡ get_or v h 0 ∷ window v ((h + 1) % cap) (n - 1)
  window_of_pos v h zero p = absurd (p refl)
  window_of_pos v h (suc n) p = ap (λ k. window v h (suc k)) (omega arith)
