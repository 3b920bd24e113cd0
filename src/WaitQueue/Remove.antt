-- ===== src/WaitQueue/Remove.antt =====
-- synchro.c: `remove_process_from_queue` on the list of the processes that wait.
use g21_tp2_so_1c.Base.{
  ℕ, zero, suc, ◌+◌, ◌-◌, ◌%◌, ◌<◌, ◌≡◌, refl, ap, sym, subst, ◌∙◌, false, Option, none, some, List,
  [], ◌∷◌, ◌++◌, length, length-set, get_or, set, arith, ◌==◌, Bool-cases, inl, inr,
}
use g21_tp2_so_1c.Base.Ring.{window, spot, gap, mod_back, window-append}
use g21_tp2_so_1c.WaitQueue.{
  CircularBuffer, max_processes, find_index, shift_back, without, remove_process_from_queue,
}
use g21_tp2_so_1c.WaitQueue.Refine.{IsValid, waiting}
use g21_tp2_so_1c.WaitQueue.Shift.{
  erase, next, Located, Search, find_index-Search, shift_by, shift_back-shift_by, length-shift_by,
  window-shift_by, window_after-shift_by,
}

-- What the removal at index `k` leaves waiting: the entries before `k`, then those behind it.
without-waiting :
    (q : CircularBuffer) (m k : ℕ)
    → IsValid q
    → m < q.size
    → k ≡ spot max_processes q.read_index m
    → ¬ ((m ≡ 0) × (q.size ≡ max_processes))
    → IsValid (without q k)
      × (waiting (without q k)
          ≡ window max_processes q.v q.read_index m
            ++ window max_processes q.v (next k) (q.size - m - 1))
without-waiting q m k v l e ne =
    let small : k < max_processes = ground arith in
    let steps : gap max_processes k q.write_index ≡ q.size - m = ground arith in
    let loop =
      let bound : q.size - m < max_processes = grind arith in
      shift_back-shift_by max_processes q.v k q.write_index small (ground arith)
        (omega (arith, steps, bound)) in
    let kept =
      window-shift_by (q.size - m) q.v k q.read_index m v.read small (ground arith)
        (ground arith) in
    let moved =
      window_after-shift_by (q.size - m) (q.size - m - 1) q.v k v.room small (ground arith)
        (omega arith) in
    let joined =
      window-append max_processes (shift_by (q.size - m) q.v k) q.read_index m (q.size - m - 1) k
        v.read (omega arith) e in
    let total : m + (q.size - m - 1) ≡ q.size - 1 = omega arith in
    let same : shift_back max_processes q.v k q.write_index ≡ shift_by (q.size - m) q.v k =
      loop ∙ ap (λ t. shift_by t q.v k) steps in
    (
      record {
        room = rw same (length-shift_by (q.size - m) q.v k ∙ v.room);
        read = v.read;
        fits = omega arith;
        write = ground (arith, mod_back max_processes q.write_index (ground arith));
      },
      rw (same, ← total, ← joined, kept, moved),
    )

-- What the removal of `pid` returns.
abbrev pub Removed : CircularBuffer → ℕ → Option CircularBuffer → Type 0
Removed q pid none = erase pid (waiting q) ≡ waiting q
Removed q pid (some r) = IsValid r × (waiting r ≡ erase pid (waiting q)) × (q.size ≡ r.size + 1)

spot_first : (h m k : ℕ) → h < max_processes → k ≡ spot max_processes h m → m ≡ 0 → k ≡ h
spot_first h m k p e z = ground arith

remove_at :
    (q : CircularBuffer) (pid k : ℕ)
    → IsValid q
    → ¬ ((q.size ≡ max_processes) × (get_or q.v q.read_index 0 ≡ pid))
    → Located q.v pid q.read_index q.size k
    → Removed q pid (some (without q k))
remove_at q pid k v ne s =
    let r = without-waiting q s.at k v s.below s.index (λ z. ne (
      z.1,
      subst (λ i. get_or q.v i 0 ≡ pid) (spot_first q.read_index s.at k v.read s.index z.0) s.hit,
    )) in
    (r.0, r.1 ∙ sym s.erased, let b = s.below in omega arith)

-- Removal takes out the first entry of the process and keeps the order of the others, and fails
-- only where the process does not wait; unless the queue is full and the process is its head.
pub remove_process_from_queue-Removed :
    (q : CircularBuffer) (pid : ℕ)
    → IsValid q
    → ¬ ((q.size ≡ max_processes) × (get_or q.v q.read_index 0 ≡ pid))
    → Removed q pid (remove_process_from_queue q pid)
unfolding remove_process_from_queue
remove_process_from_queue-Removed q pid v ne = elim (Bool-cases (q.size == 0)) [
  | inl y ↦
      let z : q.size ≡ 0 = ground arith in
      rw y (
        subst
          (λ n.
            erase pid (window max_processes q.v q.read_index n)
            ≡ window max_processes q.v q.read_index n)
          (sym z) refl)
  | inr n ↦ rw n (
      by_search (find_index q.v pid q.read_index q.size)
        (find_index-Search q.v pid q.read_index q.size v.read v.fits))
]
  where
    by_search :
        (r : Option ℕ)
        → Search q.v pid q.read_index q.size r
        → Removed q pid (elim r [ none ↦ none | some k ↦ some (without q k) ])
    by_search none s = s
    by_search (some k) s = remove_at q pid k v ne s

find_index_head :
    (v : List ℕ) (pid h n : ℕ) → get_or v h 0 ≡ pid → 0 < n → find_index v pid h n ≡ some h
unfolding find_index
find_index_head v pid h zero e p = absurd (omega arith)
find_index_head v pid h (suc n) e p = ground arith

shift_back_done : (f : ℕ) (v : List ℕ) (k w : ℕ) → k ≡ w → shift_back (suc f) v k w ≡ v
unfolding shift_back
shift_back_done f v k w e = ground arith

-- In a full queue the second loop ends before it starts when the process is the head: the last
-- process in the queue is dropped, and the head stays.
pub remove_full_head :
    (q : CircularBuffer) (pid : ℕ)
    → IsValid q
    → q.size ≡ max_processes
    → get_or q.v q.read_index 0 ≡ pid
    → (r : CircularBuffer) × (last : ℕ) × (remove_process_from_queue q pid ≡ some r)
      × (waiting q ≡ waiting r ++ (last ∷ []))
      × (get_or r.v r.read_index 0 ≡ pid)
unfolding remove_process_from_queue
remove_full_head q pid v full h =
    let w : q.write_index ≡ q.read_index = ground arith in
    let n : (q.size == 0) ≡ false = ground arith in
    (
      record q {
        write_index = (q.write_index + max_processes - 1) % max_processes;
        size = q.size - 1;
      },
      get_or q.v (spot max_processes q.read_index 63) 0,
      rw (n, find_index_head q.v pid q.read_index q.size h (omega arith))
          (ap
            (λ (u : List ℕ). some (record q {
              v = u;
              write_index = (q.write_index + max_processes - 1) % max_processes;
              size = q.size - 1;
            }))
            (shift_back_done 63 q.v q.read_index q.write_index (sym w))),
      rw full (
          sym (
            window-append max_processes q.v q.read_index 63 1 (spot max_processes q.read_index 63)
              v.read (omega arith) refl)),
      h,
    )

length-shift_back : (f : ℕ) (v : List ℕ) (k w : ℕ) → length (shift_back f v k w) ≡ length v
unfolding shift_back
length-shift_back zero v k w = refl
length-shift_back (suc f) v k w = ground (
  arith,
  length-set v k (get_or v (next k) 0),
  length-shift_back f (set v k (get_or v (next k) 0)) (next k) w,
)

without-IsValid : (q : CircularBuffer) (k : ℕ) → IsValid q → 0 < q.size → IsValid (without q k)
without-IsValid q k v p = record {
  room = length-shift_back max_processes q.v k q.write_index ∙ v.room;
  read = v.read;
  fits = omega (arith, v.fits);
  write = ground (arith, mod_back max_processes q.write_index (ground arith));
}

-- The queue that a removal leaves is valid, also where it drops the wrong entry.
pub remove_process_from_queue-IsValid :
    (q : CircularBuffer) (pid : ℕ)
    → IsValid q
    → IsValid (elim (remove_process_from_queue q pid) [ none ↦ q | some r ↦ r ])
unfolding remove_process_from_queue
remove_process_from_queue-IsValid q pid v = elim (Bool-cases (q.size == 0)) [
  | inl y ↦ rw y v
  | inr n ↦ rw n (by_search (ground arith) (find_index q.v pid q.read_index q.size))
]
  where
    by_search :
        0 < q.size
        → (r : Option ℕ)
        → IsValid
            (elim (elim r as (λ _. Option CircularBuffer) [
              | none ↦ none
              | some k ↦ some (without q k)
            ]) [ none ↦ q | some r ↦ r ])
    by_search p none = v
    by_search p (some k) = without-IsValid q k v p
