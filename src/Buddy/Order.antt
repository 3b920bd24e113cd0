-- ===== src/Buddy/Order.antt =====
-- buddyMemoryManager.c: `log2_ceil`.
use g21_tp2_so_1c.Base.{
  ap, subst, ℕ_discrete, ℕ, zero, suc, ◌+◌, ◌*◌, ◌%◌, ◌^◌, ◌≤◌, ◌<◌, ◌≡◌, refl, arith, ltb, by_bool,
}
use native.Mathlib.Nat.{pow-suc, pow-le-pow_right}
use g21_tp2_so_1c.Buddy.{log2_from, log2_ceil, u32_mod}

-- The least power of two, from 2^order on, that is at least `n`.
pub record Least (order n r : ℕ) : Type 0 where
  pub covers : n ≤ 2 ^ r
  pub from : order ≤ r
  pub least : (d : ℕ) → order ≤ d → d < r → 2 ^ d < n

pow_next : (order : ℕ) → 2 ^ (order + 1) ≡ 2 ^ order * 2
pow_next order = let e : order + 1 ≡ suc order = omega arith in rw e (pow-suc 2 order)

doubled : (order s : ℕ) → s ≡ 2 ^ order → order ≤ 30 → s * 2 % u32_mod ≡ 2 ^ (order + 1)
doubled order s e h =
    let b : 2 ^ order ≤ 2 ^ 30 = pow-le-pow_right (omega arith) h in omega (arith, pow_next order)

next-Least : (order s n r : ℕ) → s ≡ 2 ^ order → s < n → Least (order + 1) n r → Least order n r
next-Least order s n r e lt l = record {
  covers = l.covers;
  from = omega (arith, l.from);
  least = λ d h k. elim (ℕ_discrete order d) [
    | yes y ↦ subst (λ x. 2 ^ x < n) y (omega arith)
    | no ne ↦ l.least d (omega (arith, ne)) k
  ];
}

log2_from-Least :
    (f order s n : ℕ)
    → s ≡ 2 ^ order
    → n ≤ 2 ^ (order + f)
    → order + f ≤ 31
    → Least order n (log2_from (suc f) order s n)
unfolding log2_from
log2_from-Least zero order s n e h k =
    by_bool (Least order n) (ltb s n) _ _
      (λ y.
        absurd
          (let z : 2 ^ (order + 0) ≡ 2 ^ order = ap (λ x. 2 ^ x) (omega arith) in ground arith))
      (λ m. record {
        covers = ground arith;
        from = omega arith;
        least = λ d a b. absurd (omega arith);
      })
log2_from-Least (suc f) order s n e h k =
    by_bool (Least order n) (ltb s n) _ _
      (λ y. next-Least order s n _ e (ground arith) (
        log2_from-Least f (order + 1) (s * 2 % u32_mod) n (doubled order s e (omega arith))
          (let z : 2 ^ (order + suc f) ≡ 2 ^ (order + 1 + f) = ap (λ x. 2 ^ x) (omega arith) in
            omega arith)
          (omega arith)))
      (λ m. record {
        covers = ground arith;
        from = omega arith;
        least = λ d a b. absurd (omega arith);
      })

-- Up to 2^31, `log2_ceil` returns the least order whose power of two is at least `n`.
pub log2_ceil-Least : (n : ℕ) → n ≤ 2 ^ 31 → Least 0 n (log2_ceil n)
unfolding log2_ceil
log2_ceil-Least n h = log2_from-Least 31 0 1 n refl h (omega arith)
