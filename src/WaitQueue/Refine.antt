-- ===== src/WaitQueue/Refine.antt =====
-- synchro.c: the queue as a list of the processes that wait, and its invariant.
use g21_tp2_so_1c.Base.{
  ℕ, ◌≤◌, ◌<◌, ◌≡◌, refl, Option, none, some, List, [], ◌∷◌, ◌++◌, length, length-set, arith,
}
use g21_tp2_so_1c.Base.Ring.{window, spot, mod_next, length-window, window-snoc, window_of_pos}
use g21_tp2_so_1c.WaitQueue.{CircularBuffer, max_processes, pop_from_queue, add_to_queue}

pub record IsValid (q : CircularBuffer) : Type 0 where
  pub room : length q.v ≡ max_processes
  pub read : q.read_index < max_processes
  pub fits : q.size ≤ max_processes
  pub write : q.write_index ≡ spot max_processes q.read_index q.size

-- The processes that wait, the first to come first.
abbrev pub waiting : CircularBuffer → List ℕ
waiting q = window max_processes q.v q.read_index q.size

pub length-waiting : (q : CircularBuffer) → length (waiting q) ≡ q.size
length-waiting q = length-window max_processes q.v q.read_index q.size

-- The queue of a new semaphore.
pub empty-IsValid :
    (v : List ℕ)
    → length v ≡ max_processes
    → IsValid (record { v = v; read_index = 0; write_index = 0; size = 0 })
empty-IsValid v e = record { room = e; read = omega arith; fits = omega arith; write = refl }

-- The outcomes of an addition.
abbrev pub Added : CircularBuffer → ℕ → Option CircularBuffer → Type 0
Added q pid none = max_processes ≤ q.size
Added q pid (some r) = IsValid r × (waiting r ≡ waiting q ++ (pid ∷ [])) × (q.size < max_processes)

-- A process is refused exactly when 64 wait; otherwise it goes to the end.
pub add_to_queue-Added :
    (q : CircularBuffer) (pid : ℕ) → IsValid q → Added q pid (add_to_queue q pid)
unfolding add_to_queue
add_to_queue-Added q pid v = ground (
  arith,
  length-set q.v q.write_index pid,
  mod_next max_processes q.write_index,
  window-snoc max_processes q.v q.write_index pid q.read_index q.size,
)

-- The outcomes of a pop.
abbrev pub Popped : CircularBuffer → Option (ℕ × CircularBuffer) → Type 0
Popped q none = waiting q ≡ []
Popped q (some (pid, r)) = IsValid r × (waiting q ≡ pid ∷ waiting r)

-- A pop fails exactly when nobody waits; otherwise it takes the process that came first.
pub pop_from_queue-Popped : (q : CircularBuffer) → IsValid q → Popped q (pop_from_queue q)
unfolding pop_from_queue
pop_from_queue-Popped q v = ground (
  arith,
  mod_next max_processes q.read_index,
  window_of_pos max_processes q.v q.read_index q.size,
)
