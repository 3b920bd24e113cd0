-- ===== src/WaitQueue.antt =====
-- 3_Kernel/2_libraries/synchro.c: circular_buffer_t, the queue of the processes that wait for a
-- semaphore. A process id is a number below 2^32; `none` stands for the result -1.
pub mod Refine
pub mod Shift
pub mod Remove
mod Tests
use g21_tp2_so_1c.Base.{
  ℕ, zero, suc, ◌+◌, ◌-◌, ◌%◌, Bool, true, false, Option, none, some, List, length, get_or, set,
  leb, ◌==◌, if◌then◌else◌,
}

abbrev pub max_processes : ℕ
max_processes = 64

pub record CircularBuffer : Type 0 where
  pub v : List ℕ
  pub read_index : ℕ
  pub write_index : ℕ
  pub size : ℕ

pub pop_from_queue : CircularBuffer → Option (ℕ × CircularBuffer)
pop_from_queue q =
    if q.size == 0
    then none
    else some (
      get_or q.v q.read_index 0,
      record q { read_index = (q.read_index + 1) % max_processes; size = q.size - 1 },
    )

pub add_to_queue : CircularBuffer → ℕ → Option CircularBuffer
add_to_queue q pid =
    if leb max_processes q.size
    then none
    else some (record q {
      v = set q.v q.write_index pid;
      write_index = (q.write_index + 1) % max_processes;
      size = q.size + 1;
    })

-- The search of `remove_process_from_queue` from index `i`, with `n` entries left to look at.
pub find_index : List ℕ → ℕ → ℕ → ℕ → Option ℕ
find_index v pid i zero = none
find_index v pid i (suc n) =
    let rest = find_index v pid ((i + 1) % max_processes) n in
    if get_or v i 0 == pid then some i else rest

-- Its second loop, which moves each entry back by one place until `k` is the write index. The
-- fuel is the number of indices; the loop never uses it up.
pub shift_back : ℕ → List ℕ → ℕ → ℕ → List ℕ
shift_back zero v k w = v
shift_back (suc f) v k w = elim (k == w) [
  | true ↦ v
  | false ↦
      shift_back f (set v k (get_or v ((k + 1) % max_processes) 0)) ((k + 1) % max_processes) w
]

abbrev pub without : CircularBuffer → ℕ → CircularBuffer
without q k = record q {
  v = shift_back max_processes q.v k q.write_index;
  write_index = (q.write_index + max_processes - 1) % max_processes;
  size = q.size - 1;
}

pub remove_process_from_queue : CircularBuffer → ℕ → Option CircularBuffer
remove_process_from_queue q pid =
    if q.size == 0
    then none
    else elim (find_index q.v pid q.read_index q.size) [ none ↦ none | some k ↦ some (without q k) ]
