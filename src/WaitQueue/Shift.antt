-- ===== src/WaitQueue/Shift.antt =====
-- synchro.c: the two loops of `remove_process_from_queue`, the search for the process and the shift
-- of the entries behind it.
use g21_tp2_so_1c.Base.{
  ℕ, zero, suc, ◌+◌, ◌-◌, ◌%◌, ◌≤◌, ◌<◌, ◌≡◌, refl, ap, ◌∙◌, true, false, Option, none, some, List,
  [], ◌∷◌, ◌++◌, length, length-set, get_or, set, get_or-set_self, arith, if◌then◌else◌, ◌==◌,
  Bool-cases, inl, inr,
}
use g21_tp2_so_1c.Base.Ring.{window, spot, gap, mod_next, window-set_outside}
use g21_tp2_so_1c.WaitQueue.{max_processes, find_index, shift_back}

-- The list without the first entry that is `pid`.
abbrev pub erase : ℕ → List ℕ → List ℕ
erase pid [] = []
erase pid (x ∷ xs) = if x == pid then xs else x ∷ erase pid xs

abbrev pub next : ℕ → ℕ
next i = (i + 1) % max_processes

-- The search from `h` over `n` entries found `pid` `at` places further on, at index `i`.
pub record Located (v : List ℕ) (pid h n i : ℕ) : Type 0 where
  pub at : ℕ
  pub below : at < n
  pub index : i ≡ spot max_processes h at
  pub bounded : i < max_processes
  pub hit : get_or v i 0 ≡ pid
  pub erased :
      erase pid (window max_processes v h n)
      ≡ window max_processes v h at ++ window max_processes v (next i) (n - at - 1)

abbrev pub Search : List ℕ → ℕ → ℕ → ℕ → Option ℕ → Type 0
Search v pid h n none = erase pid (window max_processes v h n) ≡ window max_processes v h n
Search v pid h n (some i) = Located v pid h n i

skip-Search :
    (v : List ℕ) (pid h n : ℕ) (r : Option ℕ)
    → h < max_processes
    → suc n ≤ max_processes
    → (get_or v h 0 == pid) ≡ false
    → Search v pid (next h) n r
    → Search v pid h (suc n) r
skip-Search v pid h n none p q m s = rw m (ap (λ (l : List ℕ). get_or v h 0 ∷ l) s)
skip-Search v pid h n (some i) p q m s = record {
  at = suc s.at;
  below = omega (arith, s.below);
  index = let e = s.index in let b = s.below in ground (arith, mod_next max_processes h p);
  bounded = s.bounded;
  hit = s.hit;
  erased = rw m (
      ap (λ (l : List ℕ). get_or v h 0 ∷ l) s.erased
      ∙ ap
          (λ (t : ℕ).
            get_or v h 0
            ∷ (window max_processes v (next h) s.at ++ window max_processes v (next i) t))
          {x = n - s.at - 1} {y = suc n - suc s.at - 1} (omega arith));
}

found-Search :
    (v : List ℕ) (pid h n : ℕ)
    → h < max_processes
    → (get_or v h 0 == pid) ≡ true
    → Located v pid h (suc n) h
found-Search v pid h n p m = record {
  at = 0;
  below = omega arith;
  index = ground arith;
  bounded = p;
  hit = ground arith;
  erased = rw m (ap (window max_processes v (next h)) (omega arith));
}

pub find_index-Search :
    (v : List ℕ) (pid h n : ℕ)
    → h < max_processes
    → n ≤ max_processes
    → Search v pid h n (find_index v pid h n)
unfolding find_index
find_index-Search v pid h zero p q = refl
find_index-Search v pid h (suc n) p q = elim (Bool-cases (get_or v h 0 == pid)) [
  | inl y ↦ rw y (found-Search v pid h n p y)
  | inr m ↦ rw m (
      skip-Search v pid h n (find_index v pid (next h) n) p q m
        (find_index-Search v pid (next h) n (omega arith) (omega arith)))
]

-- The second loop as a count of rounds.
pub shift_by : ℕ → List ℕ → ℕ → List ℕ
shift_by zero v k = v
shift_by (suc m) v k = shift_by m (set v k (get_or v (next k) 0)) (next k)

shift_by-zero : (v : List ℕ) (k : ℕ) → shift_by 0 v k ≡ v
unfolding shift_by
shift_by-zero v k = refl

shift_by-suc :
    (m : ℕ) (v : List ℕ) (k : ℕ)
    → shift_by (suc m) v k ≡ shift_by m (set v k (get_or v (next k) 0)) (next k)
unfolding shift_by
shift_by-suc m v k = refl

-- The loop runs once for each step from `k` to the write index: 64 units of fuel are enough.
pub shift_back-shift_by :
    (f : ℕ) (v : List ℕ) (k w : ℕ)
    → k < max_processes
    → w < max_processes
    → gap max_processes k w < f
    → shift_back f v k w ≡ shift_by (gap max_processes k w) v k
unfolding shift_back
shift_back-shift_by zero v k w p q g = absurd (omega arith)
shift_back-shift_by (suc f) v k w p q g = elim (Bool-cases (k == w)) [
  | inl y ↦
      let z : gap max_processes k w ≡ 0 = ground arith in rw z (ground (arith, shift_by-zero v k))
  | inr n ↦
      let z : gap max_processes k w ≡ suc (gap max_processes (next k) w) =
        ground (arith, mod_next max_processes k p) in
      rw z (
        ground (
          arith,
          shift_back-shift_by f (set v k (get_or v (next k) 0)) (next k) w (omega arith) q
              (omega arith),
          shift_by-suc (gap max_processes (next k) w) v k,
        ))
]

pub length-shift_by : (m : ℕ) (v : List ℕ) (k : ℕ) → length (shift_by m v k) ≡ length v
unfolding shift_by
length-shift_by zero v k = refl
length-shift_by (suc m) v k =
    length-shift_by m (set v k (get_or v (next k) 0)) (next k)
    ∙ length-set v k (get_or v (next k) 0)

-- Entries of a window that the rounds do not reach stay.
pub window-shift_by :
    (m : ℕ) (v : List ℕ) (k h n : ℕ)
    → h < max_processes
    → k < max_processes
    → n ≤ gap max_processes h k
    → gap max_processes h k + m ≤ max_processes
    → window max_processes (shift_by m v k) h n ≡ window max_processes v h n
unfolding shift_by
window-shift_by zero v k h n p q g b = refl
window-shift_by (suc zero) v k h n p q g b =
    window-set_outside max_processes v k (get_or v (next k) 0) h n p q g
window-shift_by (suc (suc m)) v k h n p q g b =
    window-shift_by (suc m) (set v k (get_or v (next k) 0)) (next k) h n p (omega arith)
      (ground (arith, mod_next max_processes k q)) (ground (arith, mod_next max_processes k q))
    ∙ window-set_outside max_processes v k (get_or v (next k) 0) h n p q g

-- The rounds move the window after `k` back to `k`.
pub window_after-shift_by :
    (m n : ℕ) (v : List ℕ) (k : ℕ)
    → length v ≡ max_processes
    → k < max_processes
    → m < max_processes
    → n ≤ m
    → window max_processes (shift_by m v k) k n ≡ window max_processes v (next k) n
unfolding shift_by
window_after-shift_by zero zero v k l p q c = refl
window_after-shift_by zero (suc n) v k l p q c = absurd (omega arith)
window_after-shift_by (suc m) zero v k l p q c = refl
window_after-shift_by (suc m) (suc n) v k l p q c =
    let moved : List ℕ = set v k (get_or v (next k) 0) in
    let first =
      window-shift_by m moved (next k) k 1 p (omega arith)
        (ground (arith, mod_next max_processes k p)) (ground (arith, mod_next max_processes k p)) in
    let own = get_or-set_self v k (get_or v (next k) 0) 0 (omega arith) in
    let rest =
      window_after-shift_by m n moved (next k) (length-set v k (get_or v (next k) 0) ∙ l)
        (omega arith) (omega arith) (omega arith) in
    let old =
      window-set_outside max_processes v k (get_or v (next k) 0) (next (next k)) n (omega arith) p (
        ground
          (arith, mod_next max_processes k p, mod_next max_processes (next k) (omega arith))) in
    cc (first, own, rest, old)
